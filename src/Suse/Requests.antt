-- ===== src/Suse/Requests.antt =====
-- The requests of hilolay: one packet for the handshake, one with the arguments, and the answer.
use Prim.Native.String.{String}
use tp_sistemas_operativos.Base.{ℕ, ◌==◌, ◌&&◌, not, Bool, List, [], ◌∷◌, if◌then◌else◌}
use tp_sistemas_operativos.Commons.{null, Machine}
use tp_sistemas_operativos.Suse.State.{
  Cop, cop_suse_create, cop_next_tid, cop_close_tid, cop_wait_sem, cop_signal_sem, cop_suse_join,
  entero, texto,
}
use tp_sistemas_operativos.Suse.Run.{
  Cmd, pure, gets, ◌>>=◌, ◌>>◌, load_process, enviar, find_process,
}
use tp_sistemas_operativos.Suse.Scheduler.{
  handle_ult_create, handle_main_thread_create, obtener_proximo_ejecutar,
}
use tp_sistemas_operativos.Suse.Semaphores.{wait_sem, signal_sem}
use tp_sistemas_operativos.Suse.Joins.{join}
use tp_sistemas_operativos.Suse.Close.{close_tid}

-- What a client sends for one request: the code, the text of the handshake packet, and the fields
-- of the packet that follows. `otro` is any code that the server does not know.
pub data Codigo : Type 0 where
  pedido : Cop → Codigo
  otro : Codigo

pub record Pedido : Type 0 where
  pub codigo : Codigo
  pub inicio : String
  pub tid : ℕ
  pub sem : String

module _ ⦃m : Machine⦄ where
  open m use {list_size, string_equals_ignore_case}

  -- The handlers ignore the result: a wrong text is answered, and the request goes on.
  unfoldable pub esperar_handshake : ℕ → String → Cop → Cmd Bool
  esperar_handshake socket inicio cop = do
    let resultado = string_equals_ignore_case inicio "Inicio autenticacion"
    if resultado then enviar socket cop (texto "Autenticado") else enviar socket cop (texto "Error")
    pure resultado

  unfoldable pub handle_suse_create : ℕ → Pedido → Cmd (Unit {0})
  handle_suse_create socket r = do
    esperar_handshake socket r.inicio cop_suse_create
    process ← find_process socket
    cantidad ← gets λ s. list_size s.process
    if not (cantidad == 0) && not (process == null)
        then handle_ult_create process r.tid
        else handle_main_thread_create socket r.tid

  unfoldable pub handle_next_tid : ℕ → Pedido → Cmd (Unit {0})
  handle_next_tid socket r = do
    process ← find_process socket
    load_process process
    esperar_handshake socket r.inicio cop_next_tid
    next_tid ← obtener_proximo_ejecutar process
    enviar socket cop_next_tid (entero next_tid)

  unfoldable pub handle_close_tid : ℕ → Pedido → Cmd (Unit {0})
  handle_close_tid socket r = do
    esperar_handshake socket r.inicio cop_close_tid
    resultado ← close_tid r.tid socket
    enviar socket cop_close_tid (entero resultado)

  unfoldable pub handle_wait_sem : ℕ → Pedido → Cmd (Unit {0})
  handle_wait_sem socket r = do
    esperar_handshake socket r.inicio cop_wait_sem
    resultado ← wait_sem socket r.tid r.sem
    enviar socket cop_wait_sem (entero resultado)

  unfoldable pub handle_signal_sem : ℕ → Pedido → Cmd (Unit {0})
  handle_signal_sem socket r = do
    esperar_handshake socket r.inicio cop_signal_sem
    resultado ← signal_sem r.tid r.sem
    enviar socket cop_wait_sem (entero resultado)

  unfoldable pub handle_suse_join : ℕ → Pedido → Cmd (Unit {0})
  handle_suse_join socket r = do
    esperar_handshake socket r.inicio cop_suse_join
    resultado ← join socket r.tid
    enviar socket cop_wait_sem (entero resultado)

  -- The `switch` of `handle_conection_suse`.
  unfoldable pub atender : ℕ → Cop → Pedido → Cmd (Unit {0})
  unfolding handle_suse_create handle_next_tid handle_close_tid handle_wait_sem handle_signal_sem
      handle_suse_join
  atender socket cop_suse_create r = handle_suse_create socket r
  atender socket cop_next_tid r = handle_next_tid socket r
  atender socket cop_close_tid r = handle_close_tid socket r
  atender socket cop_wait_sem r = handle_wait_sem socket r
  atender socket cop_signal_sem r = handle_signal_sem socket r
  atender socket cop_suse_join r = handle_suse_join socket r

  -- The loop of `handle_conection_suse`, over what the client sends until it closes its end.
  unfoldable pub handle_conection_suse : ℕ → List Pedido → Cmd (Unit {0})
  unfolding atender
  handle_conection_suse socket [] = pure tt
  handle_conection_suse socket (r ∷ resto) =
      let siguen = handle_conection_suse socket resto in
      elim r.codigo [ otro ↦ pure tt | pedido cop ↦ atender socket cop r >> siguen ]
