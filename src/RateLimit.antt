-- ===== src/RateLimit.antt =====
-- backend/ratelimit.go: how many WebSocket upgrades a client IP may try. The token bucket of
-- golang.org/x/time/rate is a parameter. A call happens at one time, in nanoseconds.
pub mod Collection
pub mod Bucket
mod Tests
use Prim.Native.Char.{Char, code}
use Prim.Native.String.{String, [], ◌∷◌, ◌++◌}
use text.Mathlib.Text.{starts_with}
use banana_talk.Prelude.{
  ℕ, ◌-◌, ◌+◌, ◌*◌, ◌/◌, ◌≤◌, ◌≡◌, Bool, true, false, not, ◌&&◌, ◌||◌, Option, none, some, ◌==◌,
  ◌==ℕ◌, ltb, if◌then◌else◌,
}
use banana_talk.Strings.{trim_space, trim_prefix}

abbrev pub ws_connections_per_minute : ℕ
ws_connections_per_minute = 5

-- 10 minutes
abbrev pub ip_limiter_idle_ttl : ℕ
ip_limiter_idle_ttl = 600000000000

abbrev pub minute : ℕ
minute = 60000000000

-- A bucket of `burst` tokens which gains one after each `interval`: a new one, and the answer of
-- `Allow` at a time. A bucket that has been left alone until it must be full answers as a new one
-- does, and is left in the same state.
pub record Limits (interval burst : ℕ) : Type 1 where
  pub Limiter : Type 0
  pub new_limiter : Limiter
  pub allows : ℕ → Limiter → Bool × Limiter
  pub refills :
      (l : Limiter) (s t : ℕ)
      → s + interval * burst ≤ t
      → allows t (allows s l).1 ≡ allows t new_limiter

-- A character in front of the first of two parts.
abbrev pub push_left : Char → Option (String × String) → Option (String × String)
push_left c none = none
push_left c (some (a, b)) = some (c ∷ a, b)

-- The parts of a text before and after the first place of a character.
abbrev pub cut_first : ℕ → String → Option (String × String)
cut_first n [] = none
cut_first n (c ∷ s) =
    let rest = push_left c (cut_first n s) in if code c ==ℕ n then some ([], s) else rest

-- The same around the last place; `s` follows the character `c`, and `rest` is its cut.
abbrev pub cut_here : ℕ → Char → String → Option (String × String) → Option (String × String)
cut_here n c s none = if code c ==ℕ n then some ([], s) else none
cut_here n c s (some (a, b)) = some (c ∷ a, b)

abbrev pub cut_last : ℕ → String → Option (String × String)
cut_last n [] = none
cut_last n (c ∷ s) = cut_here n c s (cut_last n s)

abbrev pub contains : ℕ → String → Bool
contains n [] = false
contains n (c ∷ s) = code c ==ℕ n || contains n s

-- The end of `net.SplitHostPort` for an address in brackets: `after` follows the closing one.
abbrev pub bracketed : String → Option (String × String) → Option String
bracketed port none = none
bracketed port (some (host, after)) =
    if after == ":" ++ port && not (contains 91 (host ++ after)) && not (contains 93 after)
    then some host
    else none

abbrev pub split_at_colon : String → Option (String × String) → Option String
split_at_colon address none = none
split_at_colon address (some (host, port)) =
    if starts_with address "["
    then bracketed port (cut_first 93 (trim_prefix address "["))
    else if contains 58 host || contains 91 address || contains 93 address
    then none
    else some host

-- The host of `net.SplitHostPort`; 58 is `:`, 91 `[`, 93 `]`.
abbrev pub split_host_port : String → Option String
split_host_port address = split_at_colon address (cut_last 58 address)

-- What is read of a request: two headers, "" if missing, and the remote address.
pub record Origin : Type 0 where
  pub forwarded_for : String
  pub real_ip : String
  pub remote_addr : String

abbrev pub or_whole : String → Option String → String
or_whole address none = address
or_whole address (some host) = host

-- The first part of `strings.Split(xff, ",")`.
abbrev pub first_part : String → Option (String × String) → String
first_part xff none = xff
first_part xff (some (a, b)) = a

abbrev pub proxied : String → String → String → String
proxied forwarded real direct =
    if forwarded == "" then (if real == "" then direct else real) else forwarded

unfoldable pub client_ip : Origin → Bool → String
client_ip r trust_xff =
    let direct = or_whole r.remote_addr (split_host_port r.remote_addr) in
    if trust_xff
    then proxied (trim_space (first_part r.forwarded_for (cut_first 44 r.forwarded_for)))
        (trim_space r.real_ip) direct
    else direct

module _ {interval burst : ℕ} (l : Limits interval burst) where
  open l use {Limiter, new_limiter, allows}

  pub record IpLimiter : Type 0 where
    pub limiter : Limiter
    pub last_seen : ℕ

  abbrev pub Limiters : Type 0
  Limiters = String → Option IpLimiter

  abbrev pub put : String → IpLimiter → Limiters → Limiters
  put ip e m other = if other == ip then some e else m other

  -- The limiter of an IP.
  pub get : Option IpLimiter → Limiter
  get none = new_limiter
  get (some e) = e.limiter

  -- `get` and `Allow`: the limiter in the map is the one that `Allow` changes.
  unfoldable pub allow_ip : String → ℕ → Limiters → Bool × Limiters
  unfolding get
  allow_ip ip now m =
      let (answer, used) = allows now (get (m ip)) in
      (answer, put ip (record { limiter = used; last_seen = now }) m)

  unfoldable pub allow : Origin → Bool → ℕ → Limiters → Bool × Limiters
  unfolding allow_ip
  allow r trust_xff now m =
      let ip = client_ip r trust_xff in if ip == "" then (true, m) else allow_ip ip now m

  kept : ℕ → Option IpLimiter → Option IpLimiter
  kept cutoff none = none
  kept cutoff (some e) = if ltb e.last_seen cutoff then none else some e

  -- One tick of `gcLoop`.
  pub collect : ℕ → Limiters → Limiters
  unfolding kept
  collect now m ip = kept (now - ip_limiter_idle_ttl) (m ip)
