-- ===== src/Assistant/Ssrf/Examples.antt =====
-- Runs of the check of a base URL.
use dat.Prelude.{true, false, not, ◌&&◌, Text, codes, text_eq, Option, none, some, ◌≡◌, refl}
use dat.Prelude.Results.{ok, err}
use dat.Assistant.Ssrf.{
  Ipv4Addr, Ipv6Addr, Host, ipv4, ipv6, domain, Url, not_https, blocked_host, invalid_url,
  is_blocked_ipv4, is_blocked_ipv6, is_blocked_embedded, is_blocked_host, check_host, validate_url,
}
use dat.Assistant.Ssrf.Ranges.{is_ok, is_local, is_ok-validate_url}

abbrev at : Text → Host → Option Url
at scheme host = some (record { scheme = scheme; host = some host })

abbrev metadata : Ipv4Addr
metadata = record { a = 169; b = 254; c = 169; d = 254 }

-- ::ffff:192.168.0.1
abbrev mapped : Ipv6Addr
mapped = record { s0 = 0; s1 = 0; s2 = 0; s3 = 0; s4 = 0; s5 = 65535; s6 = 49320; s7 = 1 }

metadata_blocked : validate_url (at (codes "https") (ipv4 metadata)) false ≡ err blocked_host
unfolding validate_url check_host is_blocked_host is_blocked_ipv4 text_eq
metadata_blocked = refl

mapped_blocked : validate_url (at (codes "https") (ipv6 mapped)) false ≡ err blocked_host
unfolding validate_url check_host is_blocked_host is_blocked_ipv6 is_blocked_embedded
    is_blocked_ipv4 text_eq
mapped_blocked = refl

localhost_blocked :
    validate_url (at (codes "https") (domain (codes "api.localhost."))) false ≡ err blocked_host
unfolding validate_url check_host is_blocked_host text_eq
localhost_blocked = refl

plain_http : validate_url (at (codes "http") (domain (codes "example.com"))) false ≡ err not_https
unfolding validate_url text_eq
plain_http = refl

-- The override lets both through, but no URL without a host.
overridden :
    validate_url (at (codes "http") (ipv4 metadata)) true
    ≡ ok (record { scheme = codes "http"; host = some (ipv4 metadata) })
unfolding validate_url check_host
overridden = refl

no_host : validate_url (some (record { scheme = codes "data"; host = none })) true ≡ err invalid_url
unfolding validate_url check_host
no_host = refl

is_ok-validate_url_example :
    is_ok (validate_url (at (codes "https") (ipv6 mapped)) false)
    ≡ (text_eq (codes "https") (codes "https") && not (is_local (ipv6 mapped)))
is_ok-validate_url_example = is_ok-validate_url (codes "https") (ipv6 mapped) refl
