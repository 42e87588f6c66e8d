-- ===== src/Auth/Names.antt =====
-- auth.rs: device names.
use raemote_server.Prelude.{
  ℕ, ◌≡◌, refl, Bool, true, false, not, ◌&&◌, [], ◌∷◌, ◌++◌, nat_instance, list_instance,
  if◌then◌else◌, length, take, Option, none, some, is_empty, leb,
}
use raemote_server.Text.{Text, codes, is_whitespace, is_control, trim}
use raemote_server.Text.Decimal.{decimal}
use raemote_server.Auth.State.{NodeIds, TokenInfo}

abbrev pub max_device_name : ℕ
max_device_name = 64

-- `&hex[..hex.len().min(4)]`: the printed id is ASCII, so a byte is a character.
unfoldable pub default_device_name : {Node : Type 0} → NodeIds Node → Node → Text
default_device_name nodes node = codes "device-" ++ take 4 (nodes.to_text node)

-- The loop over the characters. The last argument is `prev_space`.
unfoldable pub sanitize_from : Text → Text → Bool → Text
sanitize_from [] out prev_space = out
sanitize_from (ch ∷ rest) out prev_space =
    let spaced = if not prev_space && not (is_empty out) then out ++ 32 ∷ [] else out in
    let after_space =
      (let more = sanitize_from rest spaced true in
        if leb max_device_name (length spaced) then spaced else more) in
    let skipped = sanitize_from rest out prev_space in
    let pushed = out ++ ch ∷ [] in
    let after_push =
      (let more = sanitize_from rest pushed false in
        if leb max_device_name (length pushed) then pushed else more) in
    if is_whitespace ch then after_space else if is_control ch then skipped else after_push

unfoldable pub sanitize_device_name : Text → Option Text
unfolding sanitize_from
sanitize_device_name name =
    let out = trim (sanitize_from name [] false) in if is_empty out then none else some out

-- `TokenInfo::uri`
unfoldable pub uri : {Node : Type 0} → NodeIds Node → TokenInfo → Node → Text
uri nodes info node =
    codes "raemote://bind?node="
    ++ (nodes.to_text node
        ++ (codes "&token=" ++ (info.token_hex ++ (codes "&exp=" ++ decimal info.expires_at_unix))))

tests :
    (sanitize_device_name (codes "  Leo's  iPhone ") ≡ some (codes "Leo's iPhone"))
    × (sanitize_device_name (codes "a\nb\tc") ≡ some (codes "a b c"))
    × (sanitize_device_name (codes "   ") ≡ none)
    × (sanitize_device_name (97 ∷ 0 ∷ 98 ∷ []) ≡ some (codes "ab"))
unfolding sanitize_device_name trim is_control
tests = (refl, refl, refl, refl)
