-- ===== src/Assistant/Ssrf/Ranges.antt =====
-- The blocked addresses as ranges of numbers.
use dat.Prelude.{
  ℕ, ◌+◌, ◌*◌, ◌==◌, ◌&&◌, ◌||◌, leb, ltb, not, Bool, true, false, Text, codes, text_eq, none, some,
  if◌then◌else◌, ◌≡◌, refl, ◌∙◌, ap, ap₂, arith,
}
use dat.Prelude.Results.{Result, ok, err}
use dat.Assistant.Ssrf.{
  Ipv4Addr, Ipv6Addr, Host, ipv4, ipv6, domain, Url, SsrfError, not_https, blocked_host,
  is_blocked_ipv4, is_blocked_ipv6, is_blocked_embedded, is_blocked_host, check_host, validate_url,
  is_zero_to, is_local_v6, is_local_domain, without_dot, embedded,
}

abbrev pub in_range : ℕ → ℕ → ℕ → Bool
in_range lo hi n = leb lo n && leb n hi

-- 127.0.0.0/8, 10.0.0.0/8, 172.16.0.0/12, 192.168.0.0/16, 169.254.0.0/16 and 0.0.0.0.
abbrev pub in_local_v4 : ℕ → Bool
in_local_v4 n =
    in_range 2130706432 2147483647 n
    || in_range 167772160 184549375 n
    || in_range 2886729728 2887778303 n
    || in_range 3232235520 3232301055 n
    || in_range 2851995648 2852061183 n
    || n == 0

abbrev pub number_v4 : Ipv4Addr → ℕ
number_v4 v4 = ((v4.a * 256 + v4.b) * 256 + v4.c) * 256 + v4.d

abbrev pub is_octets : Ipv4Addr → Bool
is_octets v4 = ltb v4.a 256 && ltb v4.b 256 && ltb v4.c 256 && ltb v4.d 256

module _ (a b c d : ℕ) (ha : ltb a 256 ≡ true) (hb : ltb b 256 ≡ true) (hc : ltb c 256 ≡ true)
    (hd : ltb d 256 ≡ true) where
  loopback : (a == 127) ≡ in_range 2130706432 2147483647 (((a * 256 + b) * 256 + c) * 256 + d)
  loopback = ground arith

  private_10 : (a == 10) ≡ in_range 167772160 184549375 (((a * 256 + b) * 256 + c) * 256 + d)
  private_10 = ground arith

  private_172 :
      (a == 172 && leb 16 b && leb b 31)
      ≡ in_range 2886729728 2887778303 (((a * 256 + b) * 256 + c) * 256 + d)
  private_172 = ground arith

  private_192 :
      (a == 192 && b == 168) ≡ in_range 3232235520 3232301055 (((a * 256 + b) * 256 + c) * 256 + d)
  private_192 = ground arith

  link_local :
      (a == 169 && b == 254) ≡ in_range 2851995648 2852061183 (((a * 256 + b) * 256 + c) * 256 + d)
  link_local = ground arith

  unspecified :
      (a == 0 && b == 0 && c == 0 && d == 0) ≡ ((((a * 256 + b) * 256 + c) * 256 + d) == 0)
  unspecified = ground arith

or_same :
    (p q r s t u p' q' r' s' t' u' : Bool)
    → p ≡ p'
    → q ≡ q'
    → r ≡ r'
    → s ≡ s'
    → t ≡ t'
    → u ≡ u'
    → (p || (q || r || s) || t || u) ≡ (p' || q' || r' || s' || t' || u')
or_same p q r s t u p' q' r' s' t' u' a b c d e f = ground arith

blocked_v4 :
    (a b c d : ℕ)
    → ltb a 256 ≡ true
    → ltb b 256 ≡ true
    → ltb c 256 ≡ true
    → ltb d 256 ≡ true
    → is_blocked_ipv4 (record { a = a; b = b; c = c; d = d })
      ≡ in_local_v4 (((a * 256 + b) * 256 + c) * 256 + d)
unfolding is_blocked_ipv4
blocked_v4 a b c d ha hb hc hd =
    or_same (a == 127) (a == 10) (a == 172 && leb 16 b && leb b 31) (a == 192 && b == 168)
      (a == 169 && b == 254) (a == 0 && b == 0 && c == 0 && d == 0) _ _ _ _ _ _
      (loopback a b c d ha hb hc hd) (private_10 a b c d ha hb hc hd)
      (private_172 a b c d ha hb hc hd) (private_192 a b c d ha hb hc hd)
      (link_local a b c d ha hb hc hd) (unspecified a b c d ha hb hc hd)

is_blocked_ipv4-ranges :
    (v4 : Ipv4Addr) → is_octets v4 ≡ true → is_blocked_ipv4 v4 ≡ in_local_v4 (number_v4 v4)
is_blocked_ipv4-ranges v4 h =
    blocked_v4 v4.a v4.b v4.c v4.d (ground arith) (ground arith) (ground arith) (ground arith)

-- The last 32 bits of an IPv6 address.
abbrev pub low_v6 : Ipv6Addr → ℕ
low_v6 v6 = v6.s6 * 65536 + v6.s7

-- ::1; the IPv4-compatible and the IPv4-mapped addresses of the local IPv4 ranges, with :: among
-- them; fc00::/7 and fe80::/10.
abbrev pub in_local_v6 : Ipv6Addr → Bool
in_local_v6 v6 =
    (is_zero_to 0 v6 && (in_local_v4 (low_v6 v6) || low_v6 v6 == 1))
    || (is_zero_to 65535 v6 && in_local_v4 (low_v6 v6))
    || (in_range 64512 65023 v6.s0 || in_range 65152 65215 v6.s0)

-- The bounds of the segments that the ranges read.
abbrev pub is_segments : Ipv6Addr → Bool
is_segments v6 = ltb v6.s0 65536 && ltb v6.s6 65536 && ltb v6.s7 65536

embedded-low :
    (v6 : Ipv6Addr)
    → is_segments v6 ≡ true
    → is_blocked_ipv4 (embedded v6) ≡ in_local_v4 (low_v6 v6)
embedded-low v6 h =
    let o : is_octets (embedded v6) ≡ true = ground arith in
    let e : number_v4 (embedded v6) ≡ low_v6 v6 = omega arith in
    is_blocked_ipv4-ranges (embedded v6) o ∙ ap in_local_v4 e

is_blocked_embedded-if :
    (b : Bool) (s0 : ℕ) (v4 : Ipv4Addr)
    → is_blocked_embedded s0 (if b then some v4 else none)
      ≡ (if b then is_blocked_ipv4 v4 else is_local_v6 s0)
unfolding is_blocked_embedded
is_blocked_embedded-if true s0 v4 = refl
is_blocked_embedded-if false s0 v4 = refl

local_segment : (s : ℕ) → is_local_v6 s ≡ (in_range 64512 65023 s || in_range 65152 65215 s)
local_segment s = ground arith

-- The cases of the code against those of the ranges.
v6_cases :
    (z m a b b' w v r : Bool)
    → (a && b) ≡ w
    → ((a && b') ≡ true → v ≡ true)
    → (z ≡ true → r ≡ false)
    → (m ≡ true → r ≡ false)
    → (if (z && a && b) || (z && a && b') then true else (if z || m then v else r))
      ≡ ((z && (v || w)) || (m && v) || r)
v6_cases true m a b b' w v r e h k j = ground (arith, e, h, k)
v6_cases false true a b b' w v r e h k j = ground (arith, j)
v6_cases false false a b b' w v r e h k j = refl

low-one : (s6 s7 : ℕ) → ltb s7 65536 ≡ true → (s6 == 0 && s7 == 1) ≡ ((s6 * 65536 + s7) == 1)
low-one s6 s7 h = ground arith

low-zero : (s6 s7 : ℕ) → (s6 == 0 && s7 == 0) ≡ true → in_local_v4 (s6 * 65536 + s7) ≡ true
low-zero s6 s7 h = ground arith

zero-local :
    (s5 : ℕ) (v6 : Ipv6Addr)
    → is_zero_to s5 v6 ≡ true
    → (in_range 64512 65023 v6.s0 || in_range 65152 65215 v6.s0) ≡ false
zero-local s5 v6 h = ground arith

is_blocked_ipv6-ranges :
    (v6 : Ipv6Addr) → is_segments v6 ≡ true → is_blocked_ipv6 v6 ≡ in_local_v6 v6
unfolding is_blocked_ipv6
is_blocked_ipv6-ranges v6 h =
    let z = is_zero_to 0 v6 in
    let m = is_zero_to 65535 v6 in
    let small : ltb v6.s7 65536 ≡ true = ground arith in
    let e =
      is_blocked_embedded-if (z || m) v6.s0 (embedded v6)
      ∙ ap₂ (λ x y. if z || m then x else y) (embedded-low v6 h) (local_segment v6.s0) in
    ap (λ x. if (z && v6.s6 == 0 && v6.s7 == 1) || (z && v6.s6 == 0 && v6.s7 == 0) then true else x)
      e
    ∙ v6_cases z m (v6.s6 == 0) (v6.s7 == 1) (v6.s7 == 0) (low_v6 v6 == 1) (in_local_v4 (low_v6 v6))
        (in_range 64512 65023 v6.s0 || in_range 65152 65215 v6.s0) (low-one v6.s6 v6.s7 small)
        (low-zero v6.s6 v6.s7) (zero-local 0 v6) (zero-local 65535 v6)

-- Whether the octets and segments of an address are in their bounds.
abbrev pub is_address : Host → Bool
is_address (ipv4 v4) = is_octets v4
is_address (ipv6 v6) = is_segments v6
is_address (domain _) = true

-- Whether the host is this machine or in its network, as far as the URL tells.
abbrev pub is_local : Host → Bool
is_local (ipv4 v4) = in_local_v4 (number_v4 v4)
is_local (ipv6 v6) = in_local_v6 v6
is_local (domain d) = is_local_domain (without_dot d)

is_blocked_host-is_local : (h : Host) → is_address h ≡ true → is_blocked_host h ≡ is_local h
unfolding is_blocked_host
is_blocked_host-is_local (ipv4 v4) k = is_blocked_ipv4-ranges v4 k
is_blocked_host-is_local (ipv6 v6) k = is_blocked_ipv6-ranges v6 k
is_blocked_host-is_local (domain d) k = refl

abbrev pub is_ok : Result SsrfError Url → Bool
is_ok (ok _) = true
is_ok (err _) = false

accepted :
    (s l : Bool) (url : Url)
    → is_ok (if not s then err not_https else if l then err blocked_host else ok url) ≡ (s && not l)
accepted true true url = refl
accepted true false url = refl
accepted false true url = refl
accepted false false url = refl

-- Without the override, a URL with a host is accepted exactly when its scheme is https and its host
-- is not local: no IPv4 address in 127.0.0.0/8, 10.0.0.0/8, 172.16.0.0/12, 192.168.0.0/16 or
-- 169.254.0.0/16 and not 0.0.0.0, no IPv6 address that holds one of these in its last 32 bits behind
-- zeros or behind ::ffff, nor ::1, nor one in fc00::/7 or fe80::/10, and no domain that is localhost
-- or ends with .localhost, up to one dot behind it. The parts of an address are to be in their
-- bounds.
pub is_ok-validate_url :
    (scheme : Text) (host : Host)
    → is_address host ≡ true
    → is_ok (validate_url (some (record { scheme = scheme; host = some host })) false)
      ≡ (text_eq scheme (codes "https") && not (is_local host))
unfolding validate_url check_host
is_ok-validate_url scheme host h =
    let url : Url = record { scheme = scheme; host = some host } in
    ap
      (λ l. is_ok (
        if not (text_eq scheme (codes "https"))
        then err not_https
        else if l
        then err blocked_host
        else ok url))
      (is_blocked_host-is_local host h)
    ∙ accepted (text_eq scheme (codes "https")) (is_local host) url
