-- ===== src/Server.antt =====
-- The TCP server that both workloads contain: socket_utils.h, and the part of `main` from the creation
-- of the socket to the end of the loop that accepts connections. The operating system's answers are
-- arguments, in order.
pub mod Address
pub mod Accepting
use wasm_cloud_computing_ben.Prelude.{
  ℕ, Bool, true, false, Option, none, some, List, [], ◌∷◌, ◌++◌, if◌then◌else◌, not, ◌==◌,
  replicate,
}
use wasm_cloud_computing_ben.Prelude.Int.{ℤ, pos, negsuc}
use wasm_cloud_computing_ben.Server.Address.{
  SockAddr, inet, inet6, Ntop, sockaddr_to_string, ip_string_size,
}

-- 1234 in network order.
abbrev pub port_1234 : ℕ
port_1234 = 0xd204

-- 0.0.0.0:1234
unfoldable pub init_sockaddr_inet : SockAddr
init_sockaddr_inet = inet port_1234 (replicate 4 0)

-- [::]:1234
unfoldable pub init_sockaddr_inet6 : SockAddr
init_sockaddr_inet6 = inet6 port_1234 (replicate 16 0)

-- The address to listen on, by whether the first argument is `inet6`.
unfoldable pub listen_address : Bool → SockAddr
listen_address is_inet6 = if is_inet6 then init_sockaddr_inet6 else init_sockaddr_inet

-- An answer of `accept`, and of `malloc` and `pthread_create` after it.
pub data Accepted : Type 0 where
  failed : Accepted
  accepted : ℕ → SockAddr → Bool → Bool → Accepted

pub data Event : Type 0 where
  thread_started arguments_freed client_shut client_closed : ℕ → Event
  shut closed : ℕ → Event
  database_detached database_deleted dataset_freed network_freed : Event

-- How the server ended: by `break`, by `goto fail`, not at all (it waits in `accept`), or past what C
-- defines (the result of `malloc` is not checked).
pub data Ending : Type 0 where
  broke jumped blocked crashed : Ending

pub record Answers : Type 0 where
  pub socket : ℤ
  pub setsockopt : Bool
  pub bind : Bool
  pub listen : Bool
  pub accepts : List Accepted

module _ (ntop : Ntop) where
  unfoldable pub accept_loop : List Accepted → List Event × Ending
  accept_loop [] = ([], blocked)
  accept_loop (failed ∷ rest) = ([], broke)
  accept_loop (accepted fd addr allocated started ∷ rest) =
      let (events, ending) = accept_loop rest in
      if not ((sockaddr_to_string ntop addr ip_string_size).0 == 0)
      then ([], jumped)
      else if not allocated
      then ([], crashed)
      else if started
      then (thread_started fd ∷ events, ending)
      else (arguments_freed fd ∷ client_shut fd ∷ client_closed fd ∷ [], broke)

  -- From `socket` on: the descriptor (-1 is `none`), the events, and the ending.
  unfoldable pub serve : Answers → Option ℕ × List Event × Ending
  serve os = elim os.socket [
    | negsuc n ↦ (none, [], jumped)
    | pos fd ↦
        if not os.setsockopt
        then (some fd, [], jumped)
        else if not os.bind
        then (some fd, [], jumped)
        else if not os.listen
        then (some fd, [], jumped)
        else (let (events, ending) = accept_loop os.accepts in (some fd, events, ending))
  ]

-- The exit status of the process; `waiting`: it has not ended.
pub data Exit : Type 0 where
  success failure waiting undefined : Exit

-- `if (socket_fd >= 0) close(socket_fd);`
abbrev pub close_socket : Option ℕ → List Event
close_socket none = []
close_socket (some fd) = closed fd ∷ []

-- `shutdown(socket_fd, SHUT_RDWR);`
abbrev pub shut_socket : Option ℕ → List Event
shut_socket none = []
shut_socket (some fd) = shut fd ∷ []

-- The two ends of `main`, with what it cleans up first.
unfoldable pub finish : List Event → Option ℕ × List Event × Ending → List Event × Exit
finish cleanup (fd, events, broke) =
    (events ++ (cleanup ++ (shut_socket fd ++ close_socket fd)), success)
finish cleanup (fd, events, jumped) = (events ++ (cleanup ++ close_socket fd), failure)
finish cleanup (fd, events, blocked) = (events, waiting)
finish cleanup (fd, events, crashed) = (events, undefined)
