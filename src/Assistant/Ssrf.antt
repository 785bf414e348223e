-- ===== src/Assistant/Ssrf.antt =====
-- The check of a custom provider's base URL (crates/dat0-core/src/ai/ssrf.rs). The crate url parses
-- the text; an octet is below 2^8, a segment below 2^16.
pub mod Ranges
mod Examples
use dat.Prelude.{
  ℕ, ◌/◌, ◌%◌, ◌*◌, ◌==◌, ◌&&◌, ◌||◌, leb, not, Bool, true, false, Text, codes, text_eq, Option,
  none, some, List, [], ◌∷◌, if◌then◌else◌,
}
use dat.Prelude.Results.{Result, ok, err}

pub record Ipv4Addr : Type 0 where
  pub a : ℕ
  pub b : ℕ
  pub c : ℕ
  pub d : ℕ

pub record Ipv6Addr : Type 0 where
  pub s0 : ℕ
  pub s1 : ℕ
  pub s2 : ℕ
  pub s3 : ℕ
  pub s4 : ℕ
  pub s5 : ℕ
  pub s6 : ℕ
  pub s7 : ℕ

pub data Host : Type 0 where
  ipv4 : Ipv4Addr → Host
  ipv6 : Ipv6Addr → Host
  domain : Text → Host

-- What `Url::parse` finds.
pub record Url : Type 0 where
  pub scheme : Text
  pub host : Option Host

pub data SsrfError : Type 0 where
  not_https blocked_host invalid_url : SsrfError

-- The tests of the standard library.
abbrev pub is_loopback : Ipv4Addr → Bool
is_loopback v4 = v4.a == 127

abbrev pub is_private : Ipv4Addr → Bool
is_private v4 =
    v4.a == 10 || (v4.a == 172 && leb 16 v4.b && leb v4.b 31) || (v4.a == 192 && v4.b == 168)

abbrev pub is_link_local : Ipv4Addr → Bool
is_link_local v4 = v4.a == 169 && v4.b == 254

abbrev pub is_unspecified : Ipv4Addr → Bool
is_unspecified v4 = v4.a == 0 && v4.b == 0 && v4.c == 0 && v4.d == 0

unfoldable pub is_blocked_ipv4 : Ipv4Addr → Bool
is_blocked_ipv4 v4 = is_loopback v4 || is_private v4 || is_link_local v4 || is_unspecified v4

abbrev pub is_zero_to : ℕ → Ipv6Addr → Bool
is_zero_to s5 v6 = v6.s0 == 0 && v6.s1 == 0 && v6.s2 == 0 && v6.s3 == 0 && v6.s4 == 0 && v6.s5 == s5

abbrev pub is_loopback_v6 : Ipv6Addr → Bool
is_loopback_v6 v6 = is_zero_to 0 v6 && v6.s6 == 0 && v6.s7 == 1

abbrev pub is_unspecified_v6 : Ipv6Addr → Bool
is_unspecified_v6 v6 = is_zero_to 0 v6 && v6.s6 == 0 && v6.s7 == 0

abbrev pub embedded : Ipv6Addr → Ipv4Addr
embedded v6 = record { a = v6.s6 / 256; b = v6.s6 % 256; c = v6.s7 / 256; d = v6.s7 % 256 }

-- `to_ipv4`: an IPv4-compatible or an IPv4-mapped address.
abbrev pub to_ipv4 : Ipv6Addr → Option Ipv4Addr
to_ipv4 v6 = if is_zero_to 0 v6 || is_zero_to 65535 v6 then some (embedded v6) else none

-- `(s0 & 0xfe00) == 0xfc00 || (s0 & 0xffc0) == 0xfe80`, where the masks keep the high bits.
abbrev pub is_local_v6 : ℕ → Bool
is_local_v6 s0 = (s0 / 512 * 512) == 64512 || (s0 / 64 * 64) == 65152

unfoldable pub is_blocked_embedded : ℕ → Option Ipv4Addr → Bool
unfolding is_blocked_ipv4
is_blocked_embedded s0 (some v4) = is_blocked_ipv4 v4
is_blocked_embedded s0 none = is_local_v6 s0

unfoldable pub is_blocked_ipv6 : Ipv6Addr → Bool
unfolding is_blocked_embedded
is_blocked_ipv6 v6 =
    if is_loopback_v6 v6 || is_unspecified_v6 v6
    then true
    else is_blocked_embedded v6.s0 (to_ipv4 v6)

-- `d.strip_suffix('.').unwrap_or(d)`
abbrev pub without_dot : Text → Text
without_dot [] = []
without_dot (c ∷ []) = if c == b'.' then [] else c ∷ []
without_dot (c ∷ d ∷ s) = c ∷ without_dot (d ∷ s)

-- `d == "localhost" || d.ends_with(".localhost")`
abbrev pub ends_with : Text → Text → Bool
ends_with suffix [] = text_eq suffix []
ends_with suffix (c ∷ s) = text_eq suffix (c ∷ s) || ends_with suffix s

abbrev pub is_local_domain : Text → Bool
is_local_domain d = text_eq d (codes "localhost") || ends_with (codes ".localhost") d

unfoldable pub is_blocked_host : Host → Bool
unfolding is_blocked_ipv4 is_blocked_ipv6
is_blocked_host (ipv4 ip) = is_blocked_ipv4 ip
is_blocked_host (ipv6 ip) = is_blocked_ipv6 ip
is_blocked_host (domain d) = is_local_domain (without_dot d)

unfoldable pub check_host : Url → Option Host → Bool → Result SsrfError Url
unfolding is_blocked_host
check_host url none advanced_override = err invalid_url
check_host url (some host) advanced_override =
    if not advanced_override && is_blocked_host host then err blocked_host else ok url

unfoldable pub validate_url : Option Url → Bool → Result SsrfError Url
unfolding check_host
validate_url none advanced_override = err invalid_url
validate_url (some url) advanced_override =
    if not advanced_override && not (text_eq url.scheme (codes "https"))
    then err not_https
    else check_host url url.host advanced_override
