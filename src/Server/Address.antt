-- ===== src/Server/Address.antt =====
-- `sockaddr_to_string` of socket_utils.h (the same file in both workloads).
use wasm_cloud_computing_ben.Prelude.{
  ℕ, zero, suc, ◌+◌, ◌-◌, ◌*◌, ◌/◌, ◌%◌, ◌^◌, ◌≤◌, ◌<◌, ◌≡◌, refl, Bool, true, false, Option, none,
  some, List, [], ◌∷◌, ◌++◌, ltb, ◌&&◌, if◌then◌else◌, take, length, arith, length-append, take_all,
  Bool-cases, inl, inr,
}
use native.Mathlib.Nat.{pow-suc}
use wasm_cloud_computing_ben.Prelude.Text.{decimal}

-- The address family decides what the rest means; a port is kept in network order.
pub data SockAddr : Type 0 where
  inet inet6 : ℕ → List ℕ → SockAddr
  other : SockAddr

-- `inet_ntop`, which is not under the repository: whether the address is of IPv6, and its bytes.
abbrev pub Ntop : Type 0
Ntop = Bool → List ℕ → List ℕ

abbrev pub ip_string_size : ℕ
ip_string_size = 64

-- The `ntohs` of a little-endian machine.
abbrev pub ntohs : ℕ → ℕ
ntohs p = p % 256 * 256 + p / 256

-- `%d` of a number below 10 ^ fuel.
unfoldable pub print_decimal : ℕ → ℕ → List ℕ
print_decimal zero n = []
print_decimal (suc fuel) n =
    let rest = print_decimal fuel (n / 10) in
    if ltb n 10 then (b'0' + n) ∷ [] else rest ++ ((b'0' + n % 10) ∷ [])

abbrev pub address_text : List ℕ → ℕ → List ℕ
address_text ip port = ip ++ (b':' ∷ print_decimal 5 (ntohs port))

-- The result, 0 or 1 (for -1), and the text that `snprintf` leaves in `str`, which has `len` bytes.
unfoldable pub print_text : List ℕ → ℕ → ℕ × Option (List ℕ)
print_text text len =
    (if ltb 0 (length text) && ltb (length text) len then 0 else 1, some (take (len - 1) text))

unfoldable pub print_address : List ℕ → ℕ → ℕ → ℕ × Option (List ℕ)
print_address ip port len = print_text (address_text ip port) len

unfoldable pub sockaddr_to_string : Ntop → SockAddr → ℕ → ℕ × Option (List ℕ)
sockaddr_to_string ntop (inet port addr) len = print_address (ntop false addr) port len
sockaddr_to_string ntop (inet6 port addr) len = print_address (ntop true addr) port len
sockaddr_to_string ntop other len = (1, none)

-- `inet_ntop` returns at most INET6_ADDRSTRLEN - 1 characters.
abbrev pub IsNtop : Ntop → Type 0
IsNtop ntop = (v6 : Bool) (addr : List ℕ) → length (ntop v6 addr) ≤ 45

length-print_decimal : (fuel n : ℕ) → length (print_decimal fuel n) ≤ fuel
unfolding print_decimal
length-print_decimal zero n = omega arith
length-print_decimal (suc fuel) n = ground (
  arith,
  length-print_decimal fuel (n / 10),
  length-append (print_decimal fuel (n / 10)) ((b'0' + n % 10) ∷ []),
)

decimal-append :
    (acc : ℕ) (xs : List ℕ) (c : ℕ)
    → decimal acc (xs ++ (c ∷ [])) ≡ decimal acc xs * 10 + (c - b'0')
decimal-append acc [] c = refl
decimal-append acc (x ∷ xs) c = decimal-append (acc * 10 + (x - b'0')) xs c

-- Reading back what `%d` prints.
decimal-print_decimal : (fuel n : ℕ) → n < 10 ^ fuel → decimal 0 (print_decimal fuel n) ≡ n
unfolding print_decimal
decimal-print_decimal zero n h = omega arith
decimal-print_decimal (suc fuel) n h = elim (Bool-cases (ltb n 10)) [
  | inl one ↦ rw (one, print_decimal) (omega arith)
  | inr more ↦
      rw (more, print_decimal)
        (omega (
          arith,
          decimal-append 0 (print_decimal fuel (n / 10)) (b'0' + n % 10),
          decimal-print_decimal fuel (n / 10) (omega (arith, pow-suc 10 fuel)),
        ))
]

print_text_lem :
    (text : List ℕ)
    → 0 < length text
    → length text < 64
    → print_text text ip_string_size ≡ (0, some text)
unfolding print_text
print_text_lem text h l = ground (arith, take_all 63 text (omega arith))

print_address_lem :
    (ip : List ℕ) (port : ℕ)
    → length ip ≤ 45
    → print_address ip port ip_string_size ≡ (0, some (address_text ip port))
unfolding print_address
print_address_lem ip port h =
    let long : length (address_text ip port)
        ≡ length ip + suc (length (print_decimal 5 (ntohs port))) =
      length-append ip (b':' ∷ print_decimal 5 (ntohs port)) in
    let short : length (print_decimal 5 (ntohs port)) ≤ 5 = length-print_decimal 5 (ntohs port) in
    print_text_lem (address_text ip port) (omega (arith, long)) (omega (arith, long, short))

-- An IPv4 or IPv6 address is printed whole into the 64 bytes of the server's buffer, and the digits
-- behind the colon are the port in host order, for a port of 16 bits and an `inet_ntop` that keeps its
-- bound.
pub sockaddr_to_string_lem :
    (ntop : Ntop) (v6 : Bool) (port : ℕ) (addr : List ℕ)
    → IsNtop ntop
    → port < 2 ^ 16
    → let digits = print_decimal 5 (ntohs port) in
      (sockaddr_to_string ntop (if v6 then inet6 port addr else inet port addr) ip_string_size
        ≡ (0, some (ntop v6 addr ++ (b':' ∷ digits))))
      × (decimal 0 digits ≡ ntohs port)
unfolding sockaddr_to_string
sockaddr_to_string_lem ntop v6 port addr bound small =
    (text v6, decimal-print_decimal 5 (ntohs port) (omega arith))
  where
    text :
        (v6 : Bool)
        → sockaddr_to_string ntop (if v6 then inet6 port addr else inet port addr) ip_string_size
          ≡ (0, some (address_text (ntop v6 addr) port))
    text true = print_address_lem (ntop true addr) port (bound true addr)
    text false = print_address_lem (ntop false addr) port (bound false addr)
