-- ===== src/Tests/System.antt =====
-- The kernel's table of sockets and a log file at concrete inputs.
use raemote_server.Prelude.{
  ℕ, ◌≤◌, List, ◌∷◌, ◌++◌, nat_instance, list_instance, option_instance, length, none, some, All,
}
use raemote_server.Text.{Text, codes}
use raemote_server.Discovery.Sockets.{listening_tcp}
use raemote_server.Discovery.Sockets.Bounds
use raemote_server.Discovery.Sockets.Bounds.{IsSocket}
use raemote_server.Logs
use raemote_server.Logs.{tail_lines, IsPlainText}

abbrev table : Text
table =
    codes
      "  sl  local_address rem_address   st\n   0: 0100007F:1435 00000000:0000 0A 0\n   1: 0100007F:0016 00000000:0000 01 0\n"

listening_tcp-IsSocket_example : All IsSocket (listening_tcp (some table) none)
listening_tcp-IsSocket_example = Bounds.listening_tcp-IsSocket (some table) none

abbrev ascii : List ℕ → Text
ascii bytes = bytes

abbrev colored : List ℕ
colored = codes "one\n" ++ 27 ∷ codes "[3mtwo\nthree\n"

tail_lines-IsPlainText_example :
    (length (tail_lines ascii colored 2) ≤ 2) × All IsPlainText (tail_lines ascii colored 2)
tail_lines-IsPlainText_example = Logs.tail_lines-IsPlainText ascii colored 2
