-- ===== src/Lib.antt =====
-- go-hdb: the wire protocol of the SAP HANA database driver.
--
-- The driver talks to the database in messages. A message is a header of 32 bytes, and segments; a
-- segment is a header of 24 bytes, and parts; a part is a header of 16 bytes, its data, and padding to
-- a multiple of 8. `Writer` (driver/internal/protocol/protocol.go) frames the parts of a request and
-- hands the bytes to `Encoder`; `Reader` walks over a received message by `Decoder`, reads errors and
-- rows affected by itself and leaves the other parts to the caller's function.
--
-- Prelude           helpers: lists, integers of a width, words as bytes, Boolean tests
-- Encoding.Encoder  driver/internal/protocol/encoding/encode.go: `Encoder`; the state is the bytes written
-- Encoding.Decoder  driver/internal/protocol/encoding/decode.go: `Decoder`; the state is the unread bytes,
--                   the sticky error and the counter; a read is a function of the state
-- Encoding.VarField encode.go, decode.go and field.go: fields of variable size behind a length indicator
-- Encoding.Fields   encode.go and decode.go: the fields of truth values, dates and times
-- Driver.Session    driver/session.go: switching users and writing large objects in rounds
-- Encoding.Julian   driver/internal/protocol/julian/julian.go: dates and Julian day numbers
-- Encoding.Datetime  driver/internal/protocol/encoding/datetime.go: daydate, seconddate, longdate
--                   and secondtime
-- Encoding.Decimal   driver/internal/protocol/encoding/decimal.go: fractions as decimals and fixed numbers
-- Protocol.TypeCode  driver/internal/protocol/typecode.go: the codes of types
-- Protocol.Convert   driver/internal/protocol/convert.go: values of the caller become parameters
-- Protocol.Parameter driver/internal/protocol/parameter.go, with the fields of encoding/encode.go and
--                   field.go: parameters, their sizes and their encoding; TextRounds is the rounds
--                   in which a text goes through the scratch buffer
-- Protocol.Headers  driver/internal/protocol/headers.go: the three headers and the argument count
-- Protocol.Padding  protocol.go: `padBytes`
-- Protocol.Errors   driver/internal/protocol/error.go: `HdbErrors`
-- Protocol.RowsAffected  driver/internal/protocol/rowsaffected.go
-- Protocol.Writer   protocol.go: `Writer.Write`; Frame and Write say what it wrote
-- Protocol.Reader   protocol.go: `Reader.ReadPart` and `Reader.IterateParts` on a state that holds the
--                   caller's variables too; Skip, Framing and Message follow it over a written message,
--                   Errors is the linking of errors to statements
-- Protocol.Parts    driver/internal/protocol/simpleparts.go: parts of one value
-- Protocol.Lob      driver/internal/protocol/lob.go: chunks of a large object, and the requests for them
-- Protocol.Prolog   driver/internal/protocol/init.go: the request and the reply that open a connection
-- Protocol.Auth     driver/internal/protocol/auth/auth.go: the size of nested parameters
-- Protocol.FieldNames  driver/internal/protocol/fieldnames.go: names by their offsets
-- Protocol.Options  driver/internal/protocol/optiontype.go and optionsparts.go: options by their keys
-- Unicode.Utf8      the package unicode/utf8 of Go, as documented
-- Unicode.Cesu8     driver/unicode/cesu8/cesu8.go: runes in CESU-8; Transform is encoding.go, the
--                   transformers between UTF-8 and CESU-8, with one loop over a codec; Sizes is the
--                   sizes of texts
-- Sqlscript         sqlscript/scan.go: the scanner; Total says that it ends, Literal to Script what it
--                   takes for a statement
-- Levenshtein       driver/internal/protocol/levenshtein/levenshtein.go: one row of the table; Least is
--                   the least number of edits
-- Driver.Version    driver/version.go: version numbers, their order and features
-- Driver.Identifier  driver/identifier.go: identifiers that need no quotes
-- Driver.Metrics    driver/metrics.go: histograms and the messages that change metrics
-- Tests             inputs on which the theorems are applied
--
-- Integers of Go of a given width are kept with their wrap-around (`convert`, `wrap`) where they can
-- leave their range; int is unbounded, as lengths, sizes and numbers of days stay far below 2^63. The
-- loop of `Zeroes` has its count as fuel, which is enough because every round writes at least one
-- byte; the loops over parts and segments recurse on their counts. The loops of the scanner and of the
-- transformers have the number of bytes that are left as fuel, as each round takes one at least, and a
-- result of their own for fuel that is spent; so do the rounds of a field of text. A panic is a result
-- of its own.
--
-- The io.Writer and io.Reader are the bytes they take and deliver, so a reader fails only at its end.
-- bufio's Flush, the caller's function, the binary searches and strings.ToLower of the standard
-- library and the operations on float64 of the metrics are parameters; a float64 of an option is its
-- bit pattern. Floats of parameters are bit patterns, and their conversions, strconv, the conversions
-- of package big and package hex are parameters, as are the error handler of the transformer and the
-- exchange of a request of a session for its reply. The digits of a number are searched with its
-- number of bits as fuel, as each round multiplies by ten; a decimal loses at most as many zeros as
-- its exponent may grow; the words of a number have the number itself as fuel. The rounds that write
-- large objects have a result for fuel that is spent; the bytes that are left and one for each object
-- are enough. Not modelled: tracing (the protocol trace is off), the decoding of results, the scanning
-- of received large objects, authentication but for that size, printing, the mutex and the channel of
-- the metrics, of sessions all but the switch of users and the writing of large objects, connections,
-- and the database/sql interface. These stand on the modelled parts, but for connections, which are
-- goroutines and sockets. Values of a parameter of the kinds uintptr, complex, channel, map and
-- function are left out; dates are those of the years from 1 on, and each large object has a
-- descriptor of its own.
pub mod Prelude
pub mod Encoding
pub mod Protocol
pub mod Unicode
pub mod Sqlscript
pub mod Levenshtein
pub mod Driver
mod Tests
