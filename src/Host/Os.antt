-- ===== src/Host/Os.antt =====
-- The calls that the C code makes of the operating system and of the Lua registry, and what
-- they answer. Both are parameters of the model: a state holds any function of the calls so far.
use lua_llsocket.Prelude.{ℕ, Bool, Option, List}
use lua_llsocket.Prelude.Int.{ℤ}
use lua_llsocket.Host.Lua.{Addrinfo}

-- Where the `msg_name` of a message points: nowhere, to the bytes of an address, or to the field
-- of a `struct addrinfo` that holds the pointer to those bytes.
pub data NameAt : Type 0 where
  nowhere : NameAt
  at_address : List ℕ → NameAt
  at_pointer_to : List ℕ → NameAt

-- `struct msghdr`, with the bytes that its vectors and its control buffer hold.
pub record Msghdr : Type 0 where
  pub msg_name : NameAt
  pub msg_namelen : ℕ
  pub msg_iov : List ℕ
  pub msg_control : List ℕ
  pub msg_controllen : ℕ
  pub msg_flags : ℤ

-- `struct ifaddrs`, with the bytes behind its pointers; a null pointer is `none`. The field
-- `ifa_dstaddr` shares its place with `ifa_broadaddr`.
pub record Ifaddrs : Type 0 where
  pub ifa_name : List ℕ
  pub ifa_flags : ℕ
  pub ifa_addr : Option (List ℕ)
  pub ifa_netmask : Option (List ℕ)
  pub ifa_dstaddr : Option (List ℕ)

pub data Call : Type 0 where
  socket : (family socktype protocol : ℤ) → Call
  socketpair : (family socktype protocol : ℤ) → Call
  close : (fd : ℤ) → Call
  shutdown : (fd how : ℤ) → Call
  dup : (fd : ℤ) → Call
  fcntl : (fd : ℤ) (cmd : ℕ) (arg : ℤ) → Call
  getsockopt : (fd : ℤ) (level opt : ℕ) → Call
  setsockopt : (fd : ℤ) (level opt : ℕ) (value : List ℤ) → Call
  getsockname getpeername sockatmark : (fd : ℤ) → Call
  listen : (fd backlog : ℤ) → Call
  accept : (fd : ℤ) (with_addr : Bool) → Call
  accept4 : (fd : ℤ) (with_addr : Bool) (flags : ℕ) → Call
  connect bind : (fd : ℤ) (addr : List ℕ) (addrlen : ℕ) → Call
  send : (fd : ℤ) (buf : List ℕ) (flags : ℤ) → Call
  sendto : (fd : ℤ) (buf : List ℕ) (flags : ℤ) (addr : List ℕ) (addrlen : ℕ) → Call
  sendmsg recvmsg : (fd : ℤ) (msg : Msghdr) (flags : ℤ) → Call
  sendfile : (out_fd in_fd offset : ℤ) (len : ℕ) → Call
  pread : (fd : ℤ) (len : ℕ) (offset : ℤ) → Call
  write : (fd : ℤ) (buf : List ℕ) → Call
  recv recvfrom : (fd : ℤ) (len : ℕ) (flags : ℤ) → Call
  read : (fd : ℤ) (len : ℕ) → Call
  setsockopt_bytes : (fd : ℤ) (level opt : ℕ) (value : List ℕ) → Call
  ioctl_gifaddr : (fd : ℤ) (name : List ℕ) → Call
  if_nametoindex : (name : List ℕ) → Call
  if_indextoname : (idx : ℕ) → Call
  ioctl_gifmtu : (fd : ℤ) (name : List ℕ) → Call
  select : (fd : ℤ) (receivable sendable except : Bool) (sec usec : ℤ) → Call
  sendfile_apple : (in_fd out_fd offset len : ℤ) → Call
  sendfile_bsd : (in_fd out_fd offset : ℤ) (len : ℕ) → Call
  getaddrinfo : (node service : Option (List ℕ)) (family socktype protocol flags : ℤ) → Call
  getnameinfo : (addr : List ℕ) (addrlen : ℕ) (flags : ℤ) → Call
  inet_pton : (family : ℤ) (text : List ℕ) → Call
  inet_ntop : (family : ℤ) (addr : List ℕ) → Call
  getifaddrs freeaddrinfo freeifaddrs : Call
  ref : Call
  unref : (ref : ℤ) → Call
  pcall : (ref : ℤ) → Call

-- The return value, the value that the call stores in `errno` if it stores one, and what it
-- writes through its pointers: integers, the bytes of a buffer, those of an address and its length,
-- and the lists that `getaddrinfo` and `getifaddrs` make.
pub record Reply : Type 0 where
  pub ret : ℤ
  pub errno : Option ℕ
  pub num : ℤ
  pub num2 : ℤ
  pub bytes : List ℕ
  pub addr : List ℕ
  pub len : ℕ
  pub infos : List Addrinfo
  pub ifas : List Ifaddrs
