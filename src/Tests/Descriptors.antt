-- ===== src/Tests/Descriptors.antt =====
-- Applications of the theorems on the descriptors that are open.
use lua_llsocket.Prelude.{ℕ, ◌+◌, leb, length, ◌≡◌, refl, true, false, ◌&&◌, List, [], ◌∷◌, arith}
use lua_llsocket.Prelude.Int.{ℤ, pos, negsuc}
use lua_llsocket.Host.Os.{Call, Reply}
use lua_llsocket.Host.Lua.{Arg}
use lua_llsocket.Host.{St}
use lua_llsocket.Create.{new_lua}
use lua_llsocket.Life.{dup_lua, close_lua}
use lua_llsocket.Descriptors.{IsKernel, opens_fd, is_open, view}
use lua_llsocket.Descriptors.Moves.{Inv, Move}
use lua_llsocket.Descriptors.Neutral.{IsHarmless, Same-refl}
use lua_llsocket.Descriptors.Reach.{Step, Reach, here, step, Step-Move, Reach-Inv, start-Inv}
use lua_llsocket.Tests.{returns, idle, a_socket, with_socket}

-- A kernel whose calls return numbers that grow.
abbrev pub growing : List Call → Call → Reply
growing t (Call.close fd) = returns (pos 0)
growing t c = returns (pos (3 + length t))

above : (t : List Call) (n : ℕ) → leb (3 + length t) n ≡ true → is_open growing t (pos n) ≡ false
above [] n h = refl
above (Call.getsockopt fd level opt ∷ t) n h = ground (arith, above t n (ground arith))
above (Call.setsockopt fd level opt value ∷ t) n h = ground (arith, above t n (ground arith))
above (Call.getsockname fd ∷ t) n h = ground (arith, above t n (ground arith))
above (Call.getpeername fd ∷ t) n h = ground (arith, above t n (ground arith))
above (Call.sockatmark fd ∷ t) n h = ground (arith, above t n (ground arith))
above (Call.listen fd backlog ∷ t) n h = ground (arith, above t n (ground arith))
above (Call.connect fd addr addrlen ∷ t) n h = ground (arith, above t n (ground arith))
above (Call.bind fd addr addrlen ∷ t) n h = ground (arith, above t n (ground arith))
above (Call.send fd buf flags ∷ t) n h = ground (arith, above t n (ground arith))
above (Call.sendto fd buf flags addr addrlen ∷ t) n h = ground (arith, above t n (ground arith))
above (Call.sendmsg fd msg flags ∷ t) n h = ground (arith, above t n (ground arith))
above (Call.recvmsg fd msg flags ∷ t) n h = ground (arith, above t n (ground arith))
above (Call.sendfile out_fd in_fd offset len ∷ t) n h = ground (arith, above t n (ground arith))
above (Call.pread fd len offset ∷ t) n h = ground (arith, above t n (ground arith))
above (Call.write fd buf ∷ t) n h = ground (arith, above t n (ground arith))
above (Call.recv fd len flags ∷ t) n h = ground (arith, above t n (ground arith))
above (Call.recvfrom fd len flags ∷ t) n h = ground (arith, above t n (ground arith))
above (Call.read fd len ∷ t) n h = ground (arith, above t n (ground arith))
above (Call.setsockopt_bytes fd level opt value ∷ t) n h = ground (arith, above t n (ground arith))
above (Call.ioctl_gifaddr fd name ∷ t) n h = ground (arith, above t n (ground arith))
above (Call.if_nametoindex name ∷ t) n h = ground (arith, above t n (ground arith))
above (Call.ref ∷ t) n h = ground (arith, above t n (ground arith))
above (Call.unref r ∷ t) n h = ground (arith, above t n (ground arith))
above (Call.pcall r ∷ t) n h = ground (arith, above t n (ground arith))
above (Call.if_indextoname idx ∷ t) n h = ground (arith, above t n (ground arith))
above (Call.ioctl_gifmtu fd name ∷ t) n h = ground (arith, above t n (ground arith))
above (Call.select fd receivable sendable except sec usec ∷ t) n h =
    ground (arith, above t n (ground arith))
above (Call.sendfile_apple in_fd out_fd offset len ∷ t) n h =
    ground (arith, above t n (ground arith))
above (Call.sendfile_bsd in_fd out_fd offset len ∷ t) n h = ground (arith, above t n (ground arith))
above (Call.getaddrinfo host service family socktype protocol flags ∷ t) n h =
    ground (arith, above t n (ground arith))
above (Call.getnameinfo addr addrlen flags ∷ t) n h = ground (arith, above t n (ground arith))
above (Call.inet_pton family text ∷ t) n h = ground (arith, above t n (ground arith))
above (Call.inet_ntop family addr ∷ t) n h = ground (arith, above t n (ground arith))
above (Call.getifaddrs ∷ t) n h = ground (arith, above t n (ground arith))
above (Call.freeaddrinfo ∷ t) n h = ground (arith, above t n (ground arith))
above (Call.freeifaddrs ∷ t) n h = ground (arith, above t n (ground arith))
above (Call.shutdown fd how ∷ t) n h = ground (arith, above t n (ground arith))
above (Call.fcntl fd cmd arg ∷ t) n h = ground (arith, above t n (ground arith))
above (Call.socket family socktype protocol ∷ t) n h = ground (arith, above t n (ground arith))
above (Call.socketpair family socktype protocol ∷ t) n h = ground (arith, above t n (ground arith))
above (Call.dup old ∷ t) n h = ground (arith, above t n (ground arith))
above (Call.accept fd with_addr ∷ t) n h = ground (arith, above t n (ground arith))
above (Call.accept4 fd with_addr flags ∷ t) n h = ground (arith, above t n (ground arith))
above (Call.close fd ∷ t) n h = ground (arith, above t n (ground arith))

below_zero : (t : List Call) (n : ℕ) → is_open growing t (negsuc n) ≡ false
below_zero [] n = refl
below_zero (Call.getsockopt fd level opt ∷ t) n = ground (arith, below_zero t n)
below_zero (Call.setsockopt fd level opt value ∷ t) n = ground (arith, below_zero t n)
below_zero (Call.getsockname fd ∷ t) n = ground (arith, below_zero t n)
below_zero (Call.getpeername fd ∷ t) n = ground (arith, below_zero t n)
below_zero (Call.sockatmark fd ∷ t) n = ground (arith, below_zero t n)
below_zero (Call.listen fd backlog ∷ t) n = ground (arith, below_zero t n)
below_zero (Call.connect fd addr addrlen ∷ t) n = ground (arith, below_zero t n)
below_zero (Call.bind fd addr addrlen ∷ t) n = ground (arith, below_zero t n)
below_zero (Call.send fd buf flags ∷ t) n = ground (arith, below_zero t n)
below_zero (Call.sendto fd buf flags addr addrlen ∷ t) n = ground (arith, below_zero t n)
below_zero (Call.sendmsg fd msg flags ∷ t) n = ground (arith, below_zero t n)
below_zero (Call.recvmsg fd msg flags ∷ t) n = ground (arith, below_zero t n)
below_zero (Call.sendfile out_fd in_fd offset len ∷ t) n = ground (arith, below_zero t n)
below_zero (Call.pread fd len offset ∷ t) n = ground (arith, below_zero t n)
below_zero (Call.write fd buf ∷ t) n = ground (arith, below_zero t n)
below_zero (Call.recv fd len flags ∷ t) n = ground (arith, below_zero t n)
below_zero (Call.recvfrom fd len flags ∷ t) n = ground (arith, below_zero t n)
below_zero (Call.read fd len ∷ t) n = ground (arith, below_zero t n)
below_zero (Call.setsockopt_bytes fd level opt value ∷ t) n = ground (arith, below_zero t n)
below_zero (Call.ioctl_gifaddr fd name ∷ t) n = ground (arith, below_zero t n)
below_zero (Call.if_nametoindex name ∷ t) n = ground (arith, below_zero t n)
below_zero (Call.ref ∷ t) n = ground (arith, below_zero t n)
below_zero (Call.unref r ∷ t) n = ground (arith, below_zero t n)
below_zero (Call.pcall r ∷ t) n = ground (arith, below_zero t n)
below_zero (Call.if_indextoname idx ∷ t) n = ground (arith, below_zero t n)
below_zero (Call.ioctl_gifmtu fd name ∷ t) n = ground (arith, below_zero t n)
below_zero (Call.select fd receivable sendable except sec usec ∷ t) n =
    ground (arith, below_zero t n)
below_zero (Call.sendfile_apple in_fd out_fd offset len ∷ t) n = ground (arith, below_zero t n)
below_zero (Call.sendfile_bsd in_fd out_fd offset len ∷ t) n = ground (arith, below_zero t n)
below_zero (Call.getaddrinfo host service family socktype protocol flags ∷ t) n =
    ground (arith, below_zero t n)
below_zero (Call.getnameinfo addr addrlen flags ∷ t) n = ground (arith, below_zero t n)
below_zero (Call.inet_pton family text ∷ t) n = ground (arith, below_zero t n)
below_zero (Call.inet_ntop family addr ∷ t) n = ground (arith, below_zero t n)
below_zero (Call.getifaddrs ∷ t) n = ground (arith, below_zero t n)
below_zero (Call.freeaddrinfo ∷ t) n = ground (arith, below_zero t n)
below_zero (Call.freeifaddrs ∷ t) n = ground (arith, below_zero t n)
below_zero (Call.shutdown fd how ∷ t) n = ground (arith, below_zero t n)
below_zero (Call.fcntl fd cmd arg ∷ t) n = ground (arith, below_zero t n)
below_zero (Call.socket family socktype protocol ∷ t) n = ground (arith, below_zero t n)
below_zero (Call.socketpair family socktype protocol ∷ t) n = ground (arith, below_zero t n)
below_zero (Call.dup old ∷ t) n = ground (arith, below_zero t n)
below_zero (Call.accept fd with_addr ∷ t) n = ground (arith, below_zero t n)
below_zero (Call.accept4 fd with_addr flags ∷ t) n = ground (arith, below_zero t n)
below_zero (Call.close fd ∷ t) n = ground (arith, below_zero t n)

is_new :
    (t : List Call) (c : Call) (fd : ℤ)
    → (opens_fd (growing t c) c fd && is_open growing t fd) ≡ false
is_new t (Call.getsockopt fd level opt) f = refl
is_new t (Call.setsockopt fd level opt value) f = refl
is_new t (Call.getsockname fd) f = refl
is_new t (Call.getpeername fd) f = refl
is_new t (Call.sockatmark fd) f = refl
is_new t (Call.listen fd backlog) f = refl
is_new t (Call.connect fd addr addrlen) f = refl
is_new t (Call.bind fd addr addrlen) f = refl
is_new t (Call.send fd buf flags) f = refl
is_new t (Call.sendto fd buf flags addr addrlen) f = refl
is_new t (Call.sendmsg fd msg flags) f = refl
is_new t (Call.recvmsg fd msg flags) f = refl
is_new t (Call.sendfile out_fd in_fd offset len) f = refl
is_new t (Call.pread fd len offset) f = refl
is_new t (Call.write fd buf) f = refl
is_new t (Call.recv fd len flags) f = refl
is_new t (Call.recvfrom fd len flags) f = refl
is_new t (Call.read fd len) f = refl
is_new t (Call.setsockopt_bytes fd level opt value) f = refl
is_new t (Call.ioctl_gifaddr fd name) f = refl
is_new t (Call.if_nametoindex name) f = refl
is_new t Call.ref f = refl
is_new t (Call.unref r) f = refl
is_new t (Call.pcall r) f = refl
is_new t (Call.if_indextoname idx) f = refl
is_new t (Call.ioctl_gifmtu fd name) f = refl
is_new t (Call.select fd receivable sendable except sec usec) f = refl
is_new t (Call.sendfile_apple in_fd out_fd offset len) f = refl
is_new t (Call.sendfile_bsd in_fd out_fd offset len) f = refl
is_new t (Call.getaddrinfo host service family socktype protocol flags) f = refl
is_new t (Call.getnameinfo addr addrlen flags) f = refl
is_new t (Call.inet_pton family text) f = refl
is_new t (Call.inet_ntop family addr) f = refl
is_new t Call.getifaddrs f = refl
is_new t Call.freeaddrinfo f = refl
is_new t Call.freeifaddrs f = refl
is_new t (Call.shutdown fd how) f = refl
is_new t (Call.fcntl fd cmd arg) f = refl
is_new t (Call.socket family socktype protocol) (ℤ.pos n) = ground (arith, above t n)
is_new t (Call.socket family socktype protocol) (ℤ.negsuc n) = refl
is_new t (Call.socketpair family socktype protocol) f = ground arith
is_new t (Call.dup old) (ℤ.pos n) = ground (arith, above t n)
is_new t (Call.dup old) (ℤ.negsuc n) = refl
is_new t (Call.accept fd with_addr) (ℤ.pos n) = ground (arith, above t n)
is_new t (Call.accept fd with_addr) (ℤ.negsuc n) = refl
is_new t (Call.accept4 fd with_addr flags) (ℤ.pos n) = ground (arith, above t n)
is_new t (Call.accept4 fd with_addr flags) (ℤ.negsuc n) = refl
is_new t (Call.close fd) f = refl

pub growing-IsKernel : IsKernel growing
growing-IsKernel = record { new_fd = is_new }

idle-IsHarmless : IsHarmless idle
idle-IsHarmless = record { keeps = λ r st. Same-refl st }

abbrev pub nothing_open : St
nothing_open = record (with_socket a_socket growing) { os = growing; has_meta = λ q. false }

abbrev one_socket : St
one_socket =
    (new_lua (Arg.given (pos 2)) (Arg.given (pos 1)) (Arg.given (pos 0)) (Arg.given false)
      nothing_open).1

abbrev two_sockets : St
two_sockets = (dup_lua 20 one_socket).1

-- A socket is made and duplicated, and the first one is closed.
one_closed : Reach idle nothing_open (close_lua idle 3 20 Arg.absent two_sockets).1
unfolding new_lua dup_lua
one_closed =
    step (step (step here (Step.create (pos 2) (pos 1) (pos 0) false)) (Step.dup 20))
      (Step.close 3 20 Arg.absent refl)

Step-Move_example : Move (view nothing_open) (view one_socket)
Step-Move_example =
    Step-Move idle nothing_open one_socket idle-IsHarmless growing-IsKernel
      (start-Inv nothing_open refl λ p. refl) (Step.create (pos 2) (pos 1) (pos 0) false)

Reach-Inv_example : Inv (view (close_lua idle 3 20 Arg.absent two_sockets).1)
Reach-Inv_example =
    Reach-Inv idle nothing_open (close_lua idle 3 20 Arg.absent two_sockets).1 idle-IsHarmless
      growing-IsKernel refl (λ p. refl) one_closed
