-- ===== src/Tests/Probe.antt =====
-- The probe at a page with a title, a redirect and a long response.
use raemote_server.Prelude.{
  ℕ, ◌≤◌, ◌≡◌, refl, List, [], ◌∷◌, ◌==◌, nat_instance, list_instance, option_instance,
  if◌then◌else◌, length, Option, none, some,
}
use raemote_server.Text.{
  Text, codes, split_once, is_whitespace, trim, trim_start, trim_end, to_ascii_lowercase,
}
use raemote_server.Discovery.Model.{Origin, http_origin}
use raemote_server.Discovery.Probe.Bytes.{find_slice, find_ci, position}
use raemote_server.Discovery.Probe.Html.{
  extract_name, normalize_from, normalize_name, extract_title, title_bytes,
}
use raemote_server.Discovery.Probe.Naming
use raemote_server.Discovery.Probe.Naming.{IsName}
use raemote_server.Discovery.Probe.Exchange.{probe_http}
use raemote_server.Discovery.Probe.Redirects
use raemote_server.Discovery.Probe.Redirects.{IsProbed}
use raemote_server.Http.Headers.{Url}

-- bytes of ASCII
abbrev ascii : List ℕ → Text
ascii bytes = bytes

abbrev page : List ℕ
page = codes "<html><TITLE> Dev \n server </title>"

extract_name-page : extract_name ascii page ≡ some (codes "Dev server")
unfolding extract_name extract_title title_bytes find_ci find_slice position normalize_name
    normalize_from trim trim_start trim_end is_whitespace to_ascii_lowercase split_once
extract_name-page = refl

extract_name-IsName_example : IsName (codes "Dev server")
extract_name-IsName_example =
    Naming.extract_name-IsName ascii page (codes "Dev server") extract_name-page

abbrev vite : Origin
vite = http_origin (codes "127.0.0.1") 5173

-- every redirect of the test names the same page
abbrev to_app : Text → Text → Option Url
to_app base location = some (record {
  host_str = some (codes "127.0.0.1");
  port_or_known_default = some 5173;
  path = location;
  query = none;
  fragment = none;
})

-- `/` redirects to `/app`
abbrev server : ℕ → Text → Option (List (List ℕ))
server left path =
    if path == codes "/"
    then some (codes "HTTP/1.1 302 Found\r\nLocation: /app\r\n\r\n" ∷ [])
    else some (codes "HTTP/1.1 200 OK\r\n\r\n" ∷ page ∷ [])

probe_http-IsProbed_example :
    (length (probe_http to_app ascii vite server).1 ≤ 4)
    × IsProbed to_app ascii vite server 4
        (codes "/")
        (probe_http to_app ascii vite server).1
        (probe_http to_app ascii vite server).0
probe_http-IsProbed_example = Redirects.probe_http-IsProbed to_app ascii vite server
