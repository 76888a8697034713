-- ===== src/Processes/Sockets.antt =====
-- The kernel as a server and a client of it see it: what each prints and types, and the connection between
-- them. On a socket, `read` and `write` are `recv` and `send` without flags.
use cese_sopg_github_io.Common.{
  ℕ, Option, length, if◌then◌else◌, ◌==◌, ◌-◌, true, none, some, List, [], ◌∷◌, ◌++◌,
}
use cese_sopg_github_io.Posix.{Call, Ret, fail, unsupported, ok}
use cese_sopg_github_io.Posix.Terminal.{Shown, Terminal, show_on, next_line, terminal_rest}
use cese_sopg_github_io.Processes.Connection.{
  Link, connect_to, accept_from, send_to_server, send_to_client, receive_from_server,
  receive_from_client, client_closes, server_closes,
}
use cese_sopg_github_io.Processes.{Kernel, Inner, with_inner}

abbrev pub client_inner : Inner Terminal
client_inner (Call.printf format args) l = some (tt, show_on l format args)
client_inner (Call.perror msg) l = some (tt, l)
client_inner (Call.write fd bs) l = if fd == 2 then some (ok (length bs), l) else none
client_inner Call.socket l = some (ok 3, l)
client_inner (Call.fgets size) l =
    some (next_line size l.typed, record l { typed = terminal_rest (size - 1) l.typed })
client_inner Call.feof l = some (true, l)
client_inner c l = none

abbrev pub server_inner : Inner (List Shown)
server_inner (Call.printf format args) l =
    some (tt, l ++ ((record { format = format; args = args }) ∷ []))
server_inner (Call.perror msg) l = some (tt, l)
server_inner c l = none

abbrev pub ebadf : ℕ
ebadf = 9

-- A call with the descriptor `fd`, where `own` is the one that the call can be made with.
abbrev at :
    {A L : Type 0} → ℕ → ℕ → Option (Ret A × L × Link) → L → Link → Option (Ret A × L × Link)
at own fd answer l m = if fd == own then answer else some (fail ebadf, l, m)

-- The socket of the client is 3.
abbrev pub client_outer : Kernel Terminal Link
client_outer (Call.connect fd) l m = at 3 fd (connect_to l m) l m
client_outer (Call.send fd bs) l m = at 3 fd (send_to_server bs l m) l m
client_outer (Call.recv fd n) l m = at 3 fd (receive_from_server n l m) l m
client_outer (Call.write fd bs) l m = at 3 fd (send_to_server bs l m) l m
client_outer (Call.read fd n) l m = at 3 fd (receive_from_server n l m) l m
client_outer (Call.close fd) l m = at 3 fd (client_closes l m) l m
client_outer c l m = some (unsupported c, l, m)

-- The socket that listens is 3, and the one of the connection 4.
abbrev pub server_outer : Kernel (List Shown) Link
server_outer (Call.accept fd) l m = at 3 fd (accept_from l m) l m
server_outer (Call.send fd bs) l m = at 4 fd (send_to_client bs l m) l m
server_outer (Call.recv fd n) l m = at 4 fd (receive_from_client n l m) l m
server_outer (Call.write fd bs) l m = at 4 fd (send_to_client bs l m) l m
server_outer (Call.read fd n) l m = at 4 fd (receive_from_client n l m) l m
server_outer (Call.close fd) l m = at 4 fd (server_closes l m) l m
server_outer c l m = some (unsupported c, l, m)

abbrev pub client_side : Kernel Terminal Link
client_side = with_inner client_inner client_outer

abbrev pub server_side : Kernel (List Shown) Link
server_side = with_inner server_inner server_outer
