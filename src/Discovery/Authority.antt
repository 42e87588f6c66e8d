-- ===== src/Discovery/Authority.antt =====
-- discovery/model.rs: a printed authority is read back.
use raemote_server.Prelude.{
  ℕ, ◌≤◌, ◌≡◌, refl, inl, inr, false, [], ◌∷◌, ◌++◌, arith, nat_instance, list_instance,
  option_instance, Bool-cases, none, some, is_empty, nat_eq, All,
}
use raemote_server.Text.{Text, codes, is_whitespace, has_char, rsplit_once, strip_prefix, trim}
use raemote_server.Text.Decimal.{
  decimal, decimal-IsDigit, is_empty-decimal, parse_uint-decimal, IsDigit, parse_uint,
}
use raemote_server.Text.Split.{split_once-cut}
use raemote_server.Text.Trim.{StartsDark, EndsDark, trim_id}
use raemote_server.Discovery.Model.{
  Origin, Scheme, http, authority, max_u16, normalize_host, split_authority, parse_authority,
}

-- An origin with a host that a text can name: not empty, without brackets, no alias of the loopback
-- address, and not beginning with whitespace; and with a port.
pub record IsPlain (o : Origin) : Type 0 where
  pub filled : is_empty o.host ≡ false
  pub closed : has_char b']' o.host ≡ false
  pub open_free : strip_prefix (codes "[") o.host ≡ none
  pub starts : StartsDark o.host
  pub canonical : normalize_host o.host ≡ o.host
  pub port_positive : nat_eq o.port 0 ≡ false
  pub port_fits : o.port ≤ max_u16

digit_dark : (c : ℕ) → IsDigit c → (is_whitespace c ≡ false) × (nat_eq c b':' ≡ false)
unfolding is_whitespace
digit_dark c h = ground arith

digits-EndsDark : (s : Text) → All IsDigit s → EndsDark s
digits-EndsDark [] h = tt
digits-EndsDark (c ∷ []) h = (digit_dark c h.0).0
digits-EndsDark (c ∷ d ∷ s) h = digits-EndsDark (d ∷ s) h.1

digits-has_char : (s : Text) → All IsDigit s → has_char b':' s ≡ false
unfolding has_char
digits-has_char [] h = refl
digits-has_char (c ∷ s) h = rw ((digit_dark c h.0).1, digits-has_char s h.1) refl

EndsDark-append : (s t : Text) → is_empty t ≡ false → EndsDark t → EndsDark (s ++ t)
EndsDark-append [] t n h = h
EndsDark-append (c ∷ []) [] n h = cc
EndsDark-append (c ∷ []) (d ∷ t) n h = h
EndsDark-append (c ∷ d ∷ s) t n h = EndsDark-append (d ∷ s) t n h

rsplit_once-none : (d : ℕ) (s : Text) → has_char d s ≡ false → rsplit_once d s ≡ none
unfolding has_char rsplit_once
rsplit_once-none d [] h = refl
rsplit_once-none d (c ∷ s) h = ground (arith, rsplit_once-none d s)

rsplit_once-cut :
    (d : ℕ) (s t : Text) → has_char d t ≡ false → rsplit_once d (s ++ d ∷ t) ≡ some (s, t)
unfolding rsplit_once
rsplit_once-cut d [] t h = ground (arith, rsplit_once-none d t h)
rsplit_once-cut d (c ∷ s) t h = rw (rsplit_once-cut d s t h) refl

strip_prefix-append :
    (c : ℕ) (s t : Text)
    → is_empty s ≡ false
    → strip_prefix (c ∷ []) s ≡ none
    → strip_prefix (c ∷ []) (s ++ t) ≡ none
unfolding strip_prefix
strip_prefix-append c [] t f h = cc
strip_prefix-append c (d ∷ s) t f h = ground arith

StartsDark-append : (s t : Text) → is_empty s ≡ false → StartsDark s → StartsDark (s ++ t)
StartsDark-append [] t n h = cc
StartsDark-append (c ∷ s) t n h = h

is_http : (s : Scheme) → s ≡ http
is_http http = refl

bracketed : (host digits : Text) → Text
bracketed host digits = codes "[" ++ (host ++ (codes "]:" ++ digits))

split_bracketed :
    (host digits : Text) (n : ℕ)
    → has_char b']' host ≡ false
    → parse_uint max_u16 digits ≡ some n
    → split_authority (bracketed host digits) ≡ some (host, n)
unfolding split_authority bracketed strip_prefix
split_bracketed host digits n h port =
    rw (split_once-cut b']' host (b':' ∷ digits) h) (rw port refl)

split_bare :
    (host digits : Text) (n : ℕ)
    → strip_prefix (codes "[") (host ++ b':' ∷ digits) ≡ none
    → has_char b':' digits ≡ false
    → parse_uint max_u16 digits ≡ some n
    → split_authority (host ++ b':' ∷ digits) ≡ some (host, n)
unfolding split_authority
split_bare host digits n open_free h port =
    ground (arith, open_free, rsplit_once-cut b':' host digits h, port)

split_authority-authority :
    (o : Origin) → IsPlain o → split_authority (authority o) ≡ some (o.host, o.port)
unfolding authority bracketed
split_authority-authority o p =
    let port = parse_uint-decimal max_u16 o.port p.port_fits in
    let digits = decimal o.port in
    elim (Bool-cases (has_char b':' o.host)) [
      | inl colon ↦ rw colon (split_bracketed o.host digits o.port p.closed port)
      | inr plain ↦ rw plain (
          split_bare o.host digits o.port
            (strip_prefix-append b'[' o.host (b':' ∷ digits) p.filled p.open_free)
            (digits-has_char digits (decimal-IsDigit o.port)) port)
    ]

EndsDark-cons : (c : ℕ) (s : Text) → is_empty s ≡ false → EndsDark s → EndsDark (c ∷ s)
EndsDark-cons c [] n h = cc
EndsDark-cons c (d ∷ s) n h = h

dark_bracket : is_whitespace b'[' ≡ false
unfolding is_whitespace
dark_bracket = refl

trim-authority : (o : Origin) → IsPlain o → trim (authority o) ≡ authority o
unfolding authority
trim-authority o p =
    let digits = decimal o.port in
    let filled = is_empty-decimal o.port in
    let ends = EndsDark-cons b':' digits filled (digits-EndsDark digits (decimal-IsDigit o.port)) in
    elim (Bool-cases (has_char b':' o.host)) [
      | inl colon ↦ rw colon (
          trim_id (codes "[" ++ (o.host ++ (codes "]:" ++ digits))) dark_bracket
            (EndsDark-append (b'[' ∷ o.host) (codes "]:" ++ digits) refl ends))
      | inr plain ↦ rw plain (
          trim_id (o.host ++ b':' ∷ digits) (StartsDark-append o.host _ p.filled p.starts)
            (EndsDark-append o.host (b':' ∷ digits) refl ends))
    ]

-- The authority of an origin is parsed as that origin.
pub parse_authority-authority : (o : Origin) → IsPlain o → parse_authority (authority o) ≡ some o
unfolding parse_authority
parse_authority-authority o p =
    rw (trim-authority o p, split_authority-authority o p)
      (ground (arith, p.port_positive, p.filled, p.canonical, is_http o.scheme))
