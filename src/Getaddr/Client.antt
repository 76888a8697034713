-- ===== src/Getaddr/Client.antt =====
-- material-clases/clase5/getaddr/cliente_tcp.c.
use cese_sopg_github_io.Common.{Option}
use cese_sopg_github_io.Memory.{Bytes}
use cese_sopg_github_io.Posix.{Prog, ◌>>=◌, ◌>>◌}
use cese_sopg_github_io.Posix.Sys.{socket, connect, fd_of}
use cese_sopg_github_io.Tcp.Asking.{Texts, on_connected}
use cese_sopg_github_io.Getaddr.Server.{unless_refused}

abbrev pub texts : Texts
texts = record {
  connect_error = "ERROR connecting\r\n";
  prompt = "Ingrese un mensaje:\r\n";
  send_error = "ERROR sending command\r\n";
  answer_format = "Recibi:'%s'\r\n";
}

-- `main`, by its array, which is not initialised.
unfoldable pub main : Option Bytes → Bytes → Prog (Unit {0})
main refused buf = do
  made ← socket
  unless_refused refused
  connected ← connect (fd_of made)
  on_connected texts buf (fd_of made) connected
