-- ===== src/Practica/Client.antt =====
-- material-clases/clase6/practica_resolviendo/cliente_tcp.c, and the same file in clase6/practica. The address
-- of the server is a constant that inet_addr takes.
use cese_sopg_github_io.Memory.{Bytes}
use cese_sopg_github_io.Posix.{Prog, ◌>>=◌}
use cese_sopg_github_io.Posix.Sys.{socket, connect, fd_of}
use cese_sopg_github_io.Tcp.Asking.{Texts, on_connected}

abbrev pub texts : Texts
texts = record {
  connect_error = "ERROR connecting\n";
  prompt = "Ingrese un mensaje:\n";
  send_error = "ERROR sending command\n";
  answer_format = "Recibi:'%s'\n";
}

-- `main`, by its array, which is not initialised.
unfoldable pub main : Bytes → Prog (Unit {0})
main buf = do
  made ← socket
  connected ← connect (fd_of made)
  on_connected texts buf (fd_of made) connected
