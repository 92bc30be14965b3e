-- ===== src/Server/Accepting.antt =====
-- What becomes of the connections that the server accepts, and of its own socket.
use wasm_cloud_computing_ben.Prelude.{
  ℕ, ◌<◌, ◌^◌, ◌≡◌, refl, Bool, true, false, some, List, [], ◌∷◌, ◌++◌, if◌then◌else◌, arith,
  replicate, ◌⊎◌, inl, inr,
}
use wasm_cloud_computing_ben.Server.Address.{
  inet, inet6, other, Ntop, IsNtop, sockaddr_to_string, sockaddr_to_string_lem, ip_string_size,
  print_decimal,
}
use wasm_cloud_computing_ben.Server.{
  Accepted, failed, accepted, Event, thread_started, client_closed, broke, blocked, accept_loop,
  listen_address, init_sockaddr_inet, init_sockaddr_inet6, port_1234,
}

-- The clients by descriptor, in order: handed to a thread (true), or closed by the server (false).
abbrev pub settled : List Event → List (ℕ × Bool)
settled [] = []
settled (thread_started fd ∷ es) = (fd, true) ∷ settled es
settled (client_closed fd ∷ es) = (fd, false) ∷ settled es
settled (_ ∷ es) = settled es

-- The answers of `accept` that have an address of IPv4 or IPv6 with a port of 16 bits, and memory for
-- the arguments.
abbrev pub AllUsual : List Accepted → Type 0
AllUsual [] = Unit
AllUsual (failed ∷ rest) = AllUsual rest
AllUsual (accepted fd (inet port addr) allocated started ∷ rest) =
    (port < 2 ^ 16) × (allocated ≡ true) × AllUsual rest
AllUsual (accepted fd (inet6 port addr) allocated started ∷ rest) =
    (port < 2 ^ 16) × (allocated ≡ true) × AllUsual rest
AllUsual (accepted fd other allocated started ∷ rest) = ⊥

-- The connections that the loop takes, and whether a thread can be started for each: those before the first
-- failure of `accept`, or up to the first thread that cannot be started, that one included.
abbrev pub taken : List Accepted → List (ℕ × Bool)
taken [] = []
taken (failed ∷ rest) = []
taken (accepted fd addr allocated started ∷ rest) =
    (fd, started) ∷ (if started then taken rest else [])

-- With usual answers every connection that the loop takes is handed to its thread, or is closed by the server
-- where no thread can be started for it; each once, by its descriptor, and in order. The loop ends by `break` or
-- waits for the next client.
pub accept_loop-taken :
    (ntop : Ntop) (os : List Accepted)
    → IsNtop ntop
    → AllUsual os
    → let (events, ending) = accept_loop ntop os in
      (settled events ≡ taken os) × ((ending ≡ broke) ⊎ (ending ≡ blocked))
unfolding accept_loop
accept_loop-taken ntop [] bound usual = (refl, inr refl)
accept_loop-taken ntop (failed ∷ rest) bound usual = (refl, inl refl)
accept_loop-taken ntop (accepted fd (inet port addr) allocated started ∷ rest) bound usual =
    ground (
      arith,
      sockaddr_to_string_lem ntop false port addr bound usual.0,
      accept_loop-taken ntop rest bound usual.2,
    )
accept_loop-taken ntop (accepted fd (inet6 port addr) allocated started ∷ rest) bound usual =
    ground (
      arith,
      sockaddr_to_string_lem ntop true port addr bound usual.0,
      accept_loop-taken ntop rest bound usual.2,
    )
accept_loop-taken ntop (accepted fd other allocated started ∷ rest) bound usual = elim usual [ ]

-- The address that the server listens on prints as the any-address of the family that the argument
-- chooses, a colon and 1234.
listen_address-print :
    (ntop : Ntop) (v6 : Bool)
    → IsNtop ntop
    → sockaddr_to_string ntop (listen_address v6) ip_string_size ≡ (
      0,
      some
          (ntop v6 (replicate (if v6 then 16 else 4) 0) ++ (b':' ∷ b'1' ∷ b'2' ∷ b'3' ∷ b'4' ∷ [])),
    )
unfolding listen_address init_sockaddr_inet init_sockaddr_inet6 print_decimal
listen_address-print ntop true bound =
    (sockaddr_to_string_lem ntop true port_1234 (replicate 16 0) bound (omega arith)).0
listen_address-print ntop false bound =
    (sockaddr_to_string_lem ntop false port_1234 (replicate 4 0) bound (omega arith)).0
