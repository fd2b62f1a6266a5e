-- ===== src/Mibtoken/Projection/Tests.antt =====
-- Runs of projection.go, and its theorems at a concrete list.
use net_mapper.Prelude.{◌≡◌, refl, true, [], ◌∷◌, codes}
use net_mapper.Mibtoken.Token.{Source, type_of}
use net_mapper.Mibtoken.Tokens.{TokenList, look_ahead, source_of}
use net_mapper.Mibtoken.Projection.{
  Projection, new_projection, next, peek, commit, pop_times, is_eof, projection_source, read_ahead,
  read_directly, read_ahead-read_directly, read_ahead-reader,
}

abbrev place : Source
place = record { filename = codes "IF-MIB"; line = 3; column = 1 }

abbrev two_tokens : TokenList
two_tokens = record {
  origin = place;
  elements =
      record { value = codes "a"; position = place }
      ∷ record { value = codes "b"; position = place }
      ∷ [];
}

abbrev half_read : Projection
half_read = record { reader = two_tokens; origin = place; offset = 1 }

half_read_run : (next (new_projection two_tokens)).0 ≡ half_read
unfolding next new_projection peek look_ahead source_of
half_read_run = refl

at_end : is_eof (next half_read).0 ≡ true
unfolding is_eof next peek look_ahead type_of
at_end = refl

second_source : projection_source half_read ≡ place
unfolding projection_source peek look_ahead
second_source = refl

read_ahead-read_directly_example :
    ((read_ahead 2 half_read).1 ≡ (read_directly 2 (pop_times 1 two_tokens)).1)
    × ((commit (read_ahead 2 half_read).0).reader ≡ (read_directly 2 (pop_times 1 two_tokens)).0)
read_ahead-read_directly_example = read_ahead-read_directly 2 half_read

read_ahead-reader_run : (read_ahead 2 half_read).0.reader ≡ two_tokens
read_ahead-reader_run = read_ahead-reader 2 half_read
