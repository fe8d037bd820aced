-- ===== src/Muse/Clock/Vuelta.antt =====
-- A page that goes to the swap file and comes back.
use tp_sistemas_operativos.Comandos.{◌>>=◌, ◌>>◌}
use tp_sistemas_operativos.Muse.State.{Muse}
