-- ===== src/Lib.antt =====
-- Verification of the C++ core of Squirrel Server Pages (LigSP): a web server whose pages are
-- Squirrel scripts, and the support code that it stands on. All the code is in LigSP/LigCommon.
--
-- The program's parts and how they interact. The server (lig_httpd.cpp, lig_httpd.h) polls its
-- sockets. Each connection (`http_conn`) has an input and an output buffer (`page_buf`). A
-- request comes by HTTP (`read_client`) or, mixed with others on one connection, by FastCGI
-- (`parse_fastcgi`); its header and its variables (`http_header`) are decoded inside the buffer
-- that received them, or an upload is taken apart (`http_mime_request`). The server looks up what
-- is registered under its URL, finds its session in the `session_manager` and runs a page, whose
-- output the connection sends. The pages' scripts ask for the variables (`query_val`) and reach
-- the support code: the string dictionary and the state machine (`nfa_chord_set`) of sdl_state.h
-- and sdl_tcpstream.cpp, whose nodes and strings live in the pool of sdl_memory.h, the
-- conversions of unicode.cpp and the hexadecimal dumps of sdl_tcpstream.cpp.
--
-- The files, and the code that each is about:
--   Dict        `_dict_insert`, `_dict_find` (sdl_tcpstream.cpp) over `StringTree` (sdl_state.h); child
--               and brother pointers are the subtrees. Dict.Handles: `_get_handle`,
--               `_insert_string`, `_get_string` with the counter and the table of strings
--   Pool        `MemAlloctor` (sdl_memory.h): `alloc`, `free`, the free chain through the first word
--               of each unused slot, and the errors. Pool.Walk: `clear`, `destroy`, `for_each` and
--               the functions on addresses
--   MiniSet     `sdl_mini_set` (sdl_state.h)
--   Nfa         `nfa_chord_set` (sdl_state.h, sdl_tcpstream.cpp), whose state sets are MiniSets
--   PageBuf     `page_buf` (lig_httpd.h)
--   HttpHeader  `VARS`, `http_header` (lig_httpd.h), `query_val` (lig_httpd.cpp): the variables of a request
--   Connection  `parse_header`, `read_client` of `http_conn` (lig_httpd.cpp)
--   Params      `get_fastcgi_params` (lig_httpd.cpp)
--   Fcgi        `parse_fastcgi`, `read_fcgi_server` (lig_httpd.cpp) over the requests that share a
--               connection. Fcgi.Spec is the delivery that is promised to them
--   Upload      `http_mime_request` (lig_httpd.cpp)
--   Register    `url_map`, `RegDB`, the `register_` functions and `check_register` (lig_httpd.h)
--   Actions     the actions of `http_conn` for GET, POST, HEAD and other requests, `create_getfile_header`
--               (lig_httpd.cpp), and `page_buf::printf` (lig_httpd.h)
--   Download    `write_file`, `write_client`, `send_http_msg` and `write_fcgi_server` of `http_conn`
--               (lig_httpd.cpp)
--   Session     `session_manager` (lig_httpd.cpp)
--   Text        the comparison, search and number helpers of lig_httpd.cpp
--   Hex         `convert_hex`, `convert_hex2`, `convert_binary` (sdl_tcpstream.cpp), `bin2str`,
--               `create_session_hash` (lig_httpd.cpp)
--   Utf8        `ucs2ToUtf8` and `utf8ToUcs2` (unicode.cpp)
--   Gbk, Uni    the GBK tables' search, `gbc2uc`, `uc2gbc`, `gb2utf8`; `gb2uni`, `uni2gb`, `utf8togb`
--               (unicode.cpp)
--   Prelude, Bits   what the others share: lists and tests on native numbers, masks and joins of bits
--
-- How the code is modelled. An object is a record and each member function a function from the
-- state to the state and the result. Memory that is only partly written is a function from
-- addresses to bytes or cells, with an argument `junk` for what was there; a text is the list of
-- the bytes in front of its NUL, or memory from the pointer on where the code may run past it. A
-- thrown exception, a read behind the memory given and NULL are `none` or a case of an outcome
-- type. A pointer into a buffer is an address of the memory that the buffer has when it is used.
-- Where a width matters (the 16-bit bounds of the binary search, the bytes of an encoding, the length of a file), the
-- wrap is written out.
--
-- Fuel. The binary search takes one round more than the table has codes, and each round shortens
-- the range; the decoding loops take the length of the text and one; the walk of the pool takes
-- the number of cells and one; KMP takes the length of the pattern, which its index falls below;
-- `printf` makes 11 attempts, for each doubles the block and 32 MB end it. The loop that retries
-- session keys, `my_atoi`, and the loops over the text of a request have their rounds as an
-- argument, and the theorems say how many are enough, or that none are: for `parse_fastcgi` more
-- than there are records, for a form or a path more than it has characters.
--
-- Not modelled: sockets, files, time and the virtual machine, whose results are arguments of the
-- operations that use them, as are those of `atoi`; the formats of `printf` and its kin; the MD5
-- digest, an argument of the session key; the polling loops of the server; the page generator
-- (parser.cpp), the parser tables (lig_parser.h); the bindings to Squirrel and SQLite; and the
-- code copied from other projects (Squirrel, GDBM, SQLite, the Squirrel shell and debugger).
pub mod Prelude
pub mod Bits
pub mod Dict
pub mod Pool
pub mod Utf8
pub mod Gbk
pub mod MiniSet
pub mod PageBuf
pub mod Nfa
pub mod Session
pub mod Hex
pub mod Uni
pub mod Text
pub mod Download
pub mod HttpHeader
pub mod Register
pub mod Upload
pub mod Params
pub mod Fcgi
pub mod Connection
pub mod Actions
