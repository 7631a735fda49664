-- ===== src/Headers/Tests.antt =====
-- The theorem on the header codec of internal/link/link.go, applied to a header with two cookies.
use aw_remote_host.Common.{[], String, ◌≡◌, refl, ◌∷◌}
use aw_remote_host.Common.Assoc.{lookup}
use aw_remote_host.Headers.{
  Header, values, headers_from_frame, wire_legacy, wire_multi, sent_pairs, sent_legacy, pairs,
}
use aw_remote_host.Headers.RoundTrip.{IsHeader, headers_from_frame-wire}

abbrev same_name : String → String
same_name k = k

abbrev cookies : Header
cookies = ("Accept", "text/html" ∷ []) ∷ ("Set-Cookie", "a=1" ∷ "b=2" ∷ []) ∷ []

cookies-IsHeader : IsHeader same_name cookies
unfolding lookup
cookies-IsHeader = ((refl, refl), (refl, ((refl, refl), (refl, tt))))

headers_from_frame-wire_example :
    values "Set-Cookie" (
      headers_from_frame same_name
        (pairs (sent_pairs (wire_multi cookies)))
        (sent_legacy (wire_legacy cookies)))
    ≡ values "Set-Cookie" cookies
headers_from_frame-wire_example =
    headers_from_frame-wire same_name cookies "Set-Cookie" cookies-IsHeader
