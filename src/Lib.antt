-- ===== src/Lib.antt =====
-- lua-llsocket: a binding of the socket interface of the C library for Lua.
--
-- The program. A socket (`lls_socket_t`, src/socket.c) is a userdata that owns a descriptor;
-- its methods make one or a few system calls each and turn the outcome into Lua values: the
-- values, or nil or false and an error object, or a third value that asks the caller to try
-- again. A socket also owns a doubly linked list of finalisers (`lls_gcfn_t`, src/gcfn.c), Lua
-- functions that are called once before the descriptor is closed. src/llsocket.h has the
-- shared helpers for options, flags and addresses, src/addrinfo.c the addresses, src/cmsghdr.c
-- and src/cmsghdrs.c the control messages and the buffer that holds several of them,
-- src/msghdr.c the message headers, and src/device.c the list of the network interfaces.
--
-- The model. Every C function is a command (Host): a function from a state to an outcome and a
-- state, with the C function's name. The state holds the memory that the sockets and the nodes
-- of finalisers stand in, `errno`, the calls made so far, newest first, and the operating
-- system. The system, and the Lua registry with it, is a parameter: any function of the calls
-- so far and the next call, which answers a return value, a value for `errno` if it sets one,
-- and what it writes through pointers. An argument of a Lua function is what the accessors of
-- lauxhlib make of it: absent, nil, a value, or one that they refuse, in which case a Lua
-- error ends the function. What a finaliser does is a parameter as well.
--
-- Files. Prelude: shared names, Boolean tests, lists, the C integer conversions (Int) and
-- bytes (Bytes). Host: states, commands, values and arguments (Lua), calls and replies (Os),
-- constants (Consts), the hypothesis on the registry (Registry) and the part of a trace that
-- matters to a descriptor's life (Trace). Gcfn: src/gcfn.c; Closure is the Lua function of a
-- finaliser, and the other children prove what unlinking does to the list. Finalise:
-- `addgcfn`, `delgcfn` and `call_gcfn` of src/socket.c. Life: `shutdown`, `close`, the
-- collection, `unwrap` and `dup`. Create: `new`, `pair`, `wrap` and `accept`. Descriptors: the
-- view of a state that Create and Life are held to, which descriptors are open and which
-- socket owns each; Moves has what may happen to it and the invariant, Neutral, Opening,
-- Passing and Ending show what each function does to it, and Reach the relation of steps on
-- states. Io: the functions that send and receive. Messages: `sendmsg` and `recvmsg`; Passing,
-- here and in Io, has the way of descriptors from one program to another. Sendfile: the
-- variants of `sendfile`. Connect: `connect`, `bind`, `listen`, `select` and the names of both
-- ends. Sockopt: options and flags of src/socket.c and src/llsocket.h. Mcast: multicast;
-- Interface is `mcastif`. Addresses: src/addrinfo.c; Numeric has the helpers of src/llsocket.h
-- for numeric addresses. Device: src/device.c. Cmsghdr: src/cmsghdr.c. Cmsghdrs:
-- src/cmsghdrs.c, the buffer of several messages; the layout of `struct cmsghdr` and the
-- macros on it are a parameter there. Msghdr: src/msghdr.c. Register: the tables that Lua code
-- sees, from the functions luaopen_… of every file, tmpl/llsocket_tmpl.c and src/env.c.
-- Methods: the methods of a socket with their arguments (Call), the types of doc/socket.md
-- (Types, Documented), and for each group of methods how its calls end. Tests: applications at
-- concrete states.
--
-- Bounds and conventions. The values of constants and the layout of structures are those of
-- 64-bit Linux with the options of the build that it has (`SO_PROTOCOL`, `TCP_KEEPIDLE`,
-- `TCP_CORK`); both variants of `acceptfd` and the four of `sendfile` are modelled. A
-- conversion to `int` or `size_t` keeps the low 32 or 64 bits. A number of seconds, a
-- double, is taken as the integers that C converts it to (Seconds of Host/Lua); how the machine
-- rounds it is left open. The loop over the finalisers runs on fuel; as many rounds as there are
-- finalisers and one more are enough, and the theorems ask for no more. Lua guarantees 20 free
-- slots on its stack; `rights`, `data` and the closure of a finaliser, which push as many values
-- as they are given, are modelled with that limit. Allocation takes a fresh address and never
-- fails. A finaliser is called quiet when it leaves sockets, lists of finalisers and descriptors
-- alone.
--
-- Not modelled: the constants that codegen.lua writes into the template, which are a parameter
-- of Register; `tostring`, which changes nothing; the address of the link layer on systems
-- other than Linux; `lls_checkudata` of src/llsocket.h, which nothing calls. The vectors of
-- the lua_iovec library are a parameter of Messages: their bytes, and the number that
-- `lua_iovec_setv` returns. A pair and a wrapped descriptor are no steps of Descriptors. A
-- read through a null pointer and a push past the slots of the Lua stack are an outcome of their
-- own, `crashed`, where the code can come to one in the model.
pub mod Prelude
pub mod Register
pub mod Host
pub mod Gcfn
pub mod Finalise
pub mod Life
pub mod Io
pub mod Sockopt
pub mod Mcast
pub mod Create
pub mod Cmsghdr
pub mod Cmsghdrs
pub mod Msghdr
pub mod Descriptors
pub mod Connect
pub mod Sendfile
pub mod Addresses
pub mod Messages
pub mod Device
pub mod Methods
pub mod Tests
