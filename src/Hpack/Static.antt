-- ===== src/Hpack/Static.antt =====
-- The static table of h2/hpack.rs (RFC 7541 Appendix A).
use Prim.Native.String.{String}
use honeybeepf_llm.Prelude.{List, [], ◌∷◌, Bytes, map}
use honeybeepf_llm.Hpack.Types.{codes}

abbrev static_strings : List (String × String)
static_strings =
    (":authority", "")
    ∷ (":method", "GET")
    ∷ (":method", "POST")
    ∷ (":path", "/")
    ∷ (":path", "/index.html")
    ∷ (":scheme", "http")
    ∷ (":scheme", "https")
    ∷ (":status", "200")
    ∷ (":status", "204")
    ∷ (":status", "206")
    ∷ (":status", "304")
    ∷ (":status", "400")
    ∷ (":status", "404")
    ∷ (":status", "500")
    ∷ ("accept-charset", "")
    ∷ ("accept-encoding", "gzip, deflate")
    ∷ ("accept-language", "")
    ∷ ("accept-ranges", "")
    ∷ ("accept", "")
    ∷ ("access-control-allow-origin", "")
    ∷ ("age", "")
    ∷ ("allow", "")
    ∷ ("authorization", "")
    ∷ ("cache-control", "")
    ∷ ("content-disposition", "")
    ∷ ("content-encoding", "")
    ∷ ("content-language", "")
    ∷ ("content-length", "")
    ∷ ("content-location", "")
    ∷ ("content-range", "")
    ∷ ("content-type", "")
    ∷ ("cookie", "")
    ∷ ("date", "")
    ∷ ("etag", "")
    ∷ ("expect", "")
    ∷ ("expires", "")
    ∷ ("from", "")
    ∷ ("host", "")
    ∷ ("if-match", "")
    ∷ ("if-modified-since", "")
    ∷ ("if-none-match", "")
    ∷ ("if-range", "")
    ∷ ("if-unmodified-since", "")
    ∷ ("last-modified", "")
    ∷ ("link", "")
    ∷ ("location", "")
    ∷ ("max-forwards", "")
    ∷ ("proxy-authenticate", "")
    ∷ ("proxy-authorization", "")
    ∷ ("range", "")
    ∷ ("referer", "")
    ∷ ("refresh", "")
    ∷ ("retry-after", "")
    ∷ ("server", "")
    ∷ ("set-cookie", "")
    ∷ ("strict-transport-security", "")
    ∷ ("transfer-encoding", "")
    ∷ ("user-agent", "")
    ∷ ("vary", "")
    ∷ ("via", "")
    ∷ ("www-authenticate", "")
    ∷ []

-- Index 1 is the first entry.
unfoldable pub static_table : List (Bytes × Bytes)
static_table = map (λ e. (codes e.0, codes e.1)) static_strings
