-- ===== src/Lib.antt =====
-- Verification library of net-mapper, a Go program that discovers hosts and reads them by SNMP.
--
-- The program has four parts. pkg/asn1 encodes and decodes ASN.1 values in BER: a frame (asn1binary)
-- carries an envelope and bytes, and the Go types of asn1go pack themselves into such bytes and unpack
-- themselves from them. pkg/snmp/mibtoken cuts the text of a MIB into tokens, pkg/snmp/mibdb makes a
-- tree of objects of them, and pkg/snmp looks the OIDs of an answer up in that tree and prints the
-- values as metrics, in blocks of the rows of one table. Marshal and Unmarshal find the packer of a Go
-- value in a registry of providers. The database reads its files and compiles its modules in passes,
-- until a pass makes no more progress, and then indexes every definition by name and OID. internal holds
-- the sources, reports and publishers, and cmd/dsnet-mapper runs them and keeps the hosts found.
--
-- Which file models what:
--   Prelude         shared names; bytes and texts, Go's results (`Outcome`), bit operations
--   Binary.Error    the errors of pkg/asn1/asn1error that the codecs return
--   Binary.Value    pkg/asn1/asn1binary/value.go and envelope.go: `marshal` is Value.Marshal,
--                   `unmarshal` is Value.Unmarshal, and `read_from`, in Binary.Value.Reader,
--                   is Value.ReadFrom
--   Binary.Charset  pkg/asn1/asn1binary/charset.go: the byte sets and their validation
--   Binary.Mapping  pkg/asn1/asn1binary/mapping.go, tag.go and class.go: the tables of names
--   Binary.Parameters  pkg/asn1/asn1binary/parameters.go: Validate, Update and ParseParameters
--   Binary.Interface  pkg/asn1/asn1binary/interface.go: `Transformer`, and the law of one that
--                   loses nothing, which Binary.Codec asks for and Go.Basic fills
--   Binary.Registry pkg/asn1/asn1binary/provider.go: `register` is RegisterProviderFuncs
--   Binary.Codec    pkg/asn1/asn1binary/helpers.go and codec.go, and the end of value.go:
--                   `marshal_go` is Marshal, `unmarshal_go` is Unmarshal
--   Go.Basic        pkg/asn1/asn1go/octectstring.go, null.go and bitstring.go
--   Go.Text         pkg/asn1/asn1go/string.go, with UTF-8 in Go.Text.Utf8
--   Go.Decimal      String and ParseOID of pkg/asn1/asn1go/oid.go, with the decimal digits
--   Go.Integer      pkg/asn1/asn1go/integer.go: `get_int` is GetInt, `set_int` is SetInt
--   Go.Oid          pkg/asn1/asn1go/oid.go: packing, unpacking and the order of OIDs
--   Reflect         pkg/asn1/asn1reflect: `pack` and `unpack` of a value by the shape of its type;
--                   Reflect.Encoding says which bytes stand for a value
--   Mibdb.OidBranch pkg/snmp/mibdb/oidbranch.go: addDefinition and findOID
--   Mibdb.Module    pkg/snmp/mibdb/module.go: imports, exports and Lookup
--   Mibdb.Database  pkg/snmp/mibdb/database.go: the files and the passes; compileValues of module.go
--   Mibdb.Index     pkg/snmp/mibdb/database.go: CreateIndex, FindOID and LookupName
--   Mibdb.Object    pkg/snmp/mibdb/object.go: `compile_value` is compileValue of an object; Lookup
--                   of definition.go
--   Mibdb.Compile   pkg/snmp/mibdb/module.go: compileValues on the objects of object.go
--   Mibdb.TypeReference  pkg/snmp/mibdb/type.go and value.go: `read_definition`; readOid of object.go;
--                   `compile_enums` and `compile_columns` in Mibdb.TypeReference.Compile
--   Mibdb.Pattern   pkg/snmp/mibdb/pattern.go: `read_parts` and `read_choice` are readDefinition of a
--                   patternSequence and of a patternChoice
--   Mibdb.Macro     pkg/snmp/mibdb/macro.go: `read_macro` is readDefinition of a macro
--   Mibtoken.Token, Mibtoken.Tokens, Mibtoken.Projection
--                   pkg/snmp/mibtoken/token.go, source.go, tokenlist.go and projection.go
--   Mibtoken.Splitter  pkg/snmp/mibtoken/scanner.go: `split` and the functions of its table
--   Mibtoken.Scanner   pkg/snmp/mibtoken/scanner.go: the queue of a scanner and Unquote
--   Framework       internal/framework/helpers.go: identifiers and the fields of a configuration
--   Framework.Config  internal/framework/helpers.go: the Consume functions
--   Framework.Plugin  internal/framework/plugin.go: the plugins of one class
--   Snmp.Metric     pkg/snmp/metric.go: blocks of metrics and their labels
--   Snmp.Printer, Snmp.Queue
--                   pkg/snmp/decoder.go: printing and flushing a block, and queueLine
--   Snmp.Protocol   pkg/snmp/protocol.go and interface.go: messages, DecodeFrame and EncodePDU;
--                   Snmp.Protocol.Layout says which bytes stand for a message
--   Mapper.Hosts    cmd/dsnet-mapper/hosts.go: the hosts of a source and their metrics
--   Mapper.Manager  cmd/dsnet-mapper/manager.go: `background_step`, a step of a scan
--   Mapper.Target   cmd/dsnet-mapper/targets.go: `new_target` is NewTarget
-- The children of a module hold its lemmas and theorems, and each Tests module runs the definitions and
-- applies the theorems to concrete values.
--
-- Conventions. A byte is a natural number below 256; where that matters it is a hypothesis. An `int` or
-- `int64` is its 64-bit pattern, with the wrap-around written out, and is negative from 2 ^ 63 on. A
-- call returns `ok`, `err` with Go's error value, or `panicked` for an index, slice or shift out of
-- range. A method that changes its receiver returns the new one. A map is an association list with one
-- entry for a key, or with the newest entry first where entries are only added; no theorem depends on the
-- order in which Go would range over it.
--
-- Loops are structural recursions on what they consume. A counted loop recurses on its number of rounds:
-- eight in SetInt, `byteCount` in Marshal and Unmarshal, ten in the array of PackAsn1, whose end is a
-- panic in the model as it is in Go (an element has at most nine groups of seven bits, so it is not
-- reached). The passes of compileValues and readDefintions recurse on fuel, of which they have one unit
-- more than there are modules or files: a pass that another one follows has compiled or read one of
-- them, so it is enough, as the termination of CreateIndex below states. The loop of a slice in Reflect
-- and that of Unquote have as much fuel as there are bytes, of which each round passes one. compileValue of
-- an object takes as much fuel as there are nested calls; that it ends is a theorem with its conditions.
-- The loops of CompileEnums and readOid have as much fuel as there are tokens. Those of readDefinition of a
-- pattern or macro need not end, so they give no result where the fuel runs out, and a theorem says what
-- is enough.
--
-- Not modelled: formatting and stack traces, reflection, goroutines and locks, and everything that only
-- talks to the network, the file system, templates or a library. `strings.ToLower` is that of ASCII,
-- in which all names of the tables are. An `io.Reader` is a parameter of `read_from`,
-- and an `io.Writer` one of the encoder and the printer. Parameters, too, are the values of Go that a
-- registry packs, the reading of one MIB file, the compiling of one definition, the meta data of an
-- object, the factory of a class of plugins and the verb %q. Reflection is written out where
-- ConsumeOptionalArg uses it for a string and a list of strings. In Reflect the shape of a type is
-- given, where the package asks the library, and all fields are exported. The reading of values by
-- types, patterns and macros, the interfaces and times in asn1reflect, and the configuration and the
-- scheduling of Manager are not modelled.
pub mod Prelude
pub mod Binary
pub mod Go
pub mod Mibdb
pub mod Mapper
pub mod Mibtoken
pub mod Framework
pub mod Reflect
pub mod Snmp
