-- ===== src/Lib.antt =====
-- A model of the DuckDB extension for Google Calendar, in which a calendar is a table, an event is
-- a row, and SQL statements become calls of the Calendar API.
--
-- The parts, and how they work together:
-- - Mapping: the columns of the table and the fields of an event, both ways
--   (src/include/storage/event_mapping.hpp). Columns has the tables of names, Times the encoding
--   of times (TimeNode, ReencodeTimeNode, ExistingAllDay), Write has ApplyColumn, RowToEvent and
--   ApplySet, Read has ExtractField and EventToRow, Emit has EmitReturnedRows with the engine's
--   loop.
-- - Dml: the sinks of INSERT, UPDATE and DELETE (src/storage/calendar_insert.cpp,
--   calendar_update.cpp, calendar_delete.cpp), which map rows and call the API. Sink has the state
--   that the three share, and the source that gives the count or the rows for RETURNING, Init the
--   state before the first row, Source the sources of the three, Merge the operators of a MERGE
--   (src/storage/calendar_merge.cpp), and Plan the operators that statements are planned with
--   (src/storage/calendar_catalog.cpp). Service has the events of a calendar as an abstract table
--   that the server keeps, with what the API documents of its requests (a deleted id may stay
--   reserved, and the server need not take every body), and the three statements as steps of that
--   table. Statement runs a statement as the engine does: the sink for chunk after
--   chunk of rows, and then the source until it says FINISHED.
-- - Scan: the table function (src/storage/calendar_scan.cpp). Filter reads bounds on the time from
--   the filters of a query, Init makes the window and the query of a scan, Pages fetches the pages
--   and fills chunks with rows.
-- - Catalog: the tables, the calendars that the session made, CREATE TABLE AS and DROP TABLE
--   (src/storage/calendar_catalog.cpp, calendar_schema_entry.cpp). Schema has the columns of a
--   table and their check (src/storage/event_schema.cpp), Refuse the statements that are refused
--   (src/storage/calendar_schema_entry.cpp), Mount the whole of `CalendarAttach`, Open the
--   client that ATTACH and a transaction make, TableEntry the table of a calendar with what its scan
--   is bound to (src/storage/calendar_table_entry.cpp), Load the tables that ATTACH mounts
--   (LoadCatalog of src/storage/calendar_catalog.cpp) with the aliases, Attach the default window
--   (both from the options of src/storage/calendar_storage_extension.cpp), and Transaction the
--   client of a transaction (src/storage/calendar_transaction.cpp), with its lock in Threads, and the
--   list of transactions (calendar_transaction_manager.cpp).
-- - Auth: who calls the API. ServiceAccount has the assertion and the token of a service account
--   (src/calendar/auth/service_account_auth.cpp), Secret the secrets of the three providers
--   (src/calendar_auth.cpp, with src/calendar/util/options.cpp) and the provider that is made from
--   one (src/calendar/auth_factory.cpp), Oauth the flow in the browser (src/calendar_auth.cpp,
--   InitiateOAuthFlow with its helpers), Connect the client that is made with a provider.
-- - Resources: the calls of the API for events and calendars (src/calendar/resources/base.cpp,
--   events.cpp, calendars.cpp, calendar_list.cpp, and ParseResponse of
--   src/include/calendar/util/response.hpp), over any client for HTTP.
-- - Transport: the types of requests (src/include/calendar/transport/http_type.hpp), the client
--   that retries (src/calendar/transport/retrying_http_client.cpp), the one with canned responses
--   that the extension's tests use (mock_http_client.cpp), the one over the HTTP library
--   (httplib_client.cpp) with the split of a URL, the settings of a proxy
--   (src/calendar/util/proxy.cpp), and the factory that makes a client from a fixture or over the
--   HTTP library (client_factory.cpp).
-- - Extension: what is registered with the engine (src/google_calendar_extension.cpp, and `Register`
--   of src/calendar_auth.cpp), and Options the parameters of the functions that make secrets.
-- - Util: base64url and PEM keys (src/calendar/util/encoding.cpp), and query strings
--   (src/calendar/util/query.cpp).
-- - Json and Sql: the two libraries that the code calls, nlohmann::json and DuckDB's values, as
--   interfaces with the documented behaviour that the properties use as laws. Json.Assoc,
--   Json.Log and Sql.Simple implement them for the tests, and Tests.Server implements the server.
-- - Common: Boolean tests, lists, bytes, signed integers, and code that changes a world and may
--   throw.
-- - Tests: the theorems at concrete inputs.
--
-- State: code that calls the network is a function from a world to a result and a world, where the
-- world is the client's state and the server's; what was done before an exception stays done. An
-- exception is a value of its class with the template of its message. A `std::string` is the list
-- of its bytes. A global state of an operator is a record that is passed on.
--
-- Parameters: the HTTP library, JSON and values as above, the folding of constants by the engine,
-- the text of an exception from `what()`, the engine's folding of case and its intervals, the split
-- of a text and the reading of digits for a proxy, the delay and sleep between attempts, OpenSSL,
-- SHA-256 and the clock, files and the environment, and what the flow in the browser calls: the
-- generators of random numbers, the listener, the shell, the keyring and the token endpoint. The
-- listener gives the requests that its handler works off before and behind the end of the wait.
--
-- Bounds and fuel: the loop of NormalizePemKey has fuel one larger than the key, which the proof
-- shows to be enough; the loop of the retrying client runs on the attempts that are left. The
-- loop of the scan, the loop over the pages of calendars and the engine's loops have fuel as an
-- argument, and the theorems say how much is enough. A number is printed with fuel one larger
-- than itself. Numbers are natural numbers or integers without a limit, but for the sums of
-- instants in the scan, the parts of a negated interval and the port of a proxy, whose widths are
-- written out; a sum that is out of range wraps around, as it does where the compiler leaves it
-- to the machine. `Interval::Add` and `Interval::GetMicro` may throw. Bytes are below 256 where it
-- matters. The delays between attempts and the expiry of a token stay far inside 64 bits.
--
-- Not modelled: the two functions that call the keyring of macOS, which make up and take apart the
-- objects of its library only; the commands that open a browser on Windows and on macOS, as that of
-- Linux is modelled; the figures that the engine asks for and that are empty; and the numbers of the
-- versions, which the build defines. The printing of JSON is total here, whereas nlohmann::json
-- throws on a text that is no UTF-8: such a text can come about where ReencodeTimeNode cuts a text
-- of the server to ten bytes in the middle of a character.
pub mod Common
pub mod Util
pub mod Transport
pub mod Json
pub mod Sql
pub mod Mapping
pub mod Resources
pub mod Scan
pub mod Dml
pub mod Auth
pub mod Catalog
pub mod Tests
pub mod Extension
