-- ===== src/Suse/State.antt =====
-- The objects of planificador/suse.h and utils_suse/libraries.h, and the globals of suse.c.
use tp_sistemas_operativos.Base.{ℕ, Bool, true, false, Option, List}
use tp_sistemas_operativos.Base.Int.{ℤ}
use tp_sistemas_operativos.Commons.{Ref, Machine}
use Prim.Native.String.{String}

-- `enum estados`.
pub data Estado : Type 0 where
  e_ready e_execute e_blocked e_exit e_new : Estado

-- The mutexes of suse.h that the code locks.
pub data Mutex : Type 0 where
  mutex_new_queue mutex_blocked_queue mutex_exit_queue mutex_semaforos mutex_multiprog : Mutex
  mutex_process_list : Mutex

abbrev pub same_mutex : Mutex → Mutex → Bool
same_mutex mutex_new_queue mutex_new_queue = true
same_mutex mutex_blocked_queue mutex_blocked_queue = true
same_mutex mutex_exit_queue mutex_exit_queue = true
same_mutex mutex_semaforos mutex_semaforos = true
same_mutex mutex_multiprog mutex_multiprog = true
same_mutex mutex_process_list mutex_process_list = true
same_mutex _ _ = false

-- What `enviar` is given to send.
pub data Payload : Type 0 where
  entero : ℤ → Payload
  texto : String → Payload

-- The operation codes that the server reads or sends.
pub data Cop : Type 0 where
  cop_suse_create cop_next_tid cop_close_tid cop_wait_sem cop_signal_sem cop_suse_join : Cop

pub record Envio : Type 0 where
  pub socket : ℕ
  pub codigo_operacion : Cop
  pub datos : Payload

-- `t_suse_semaforos`.
pub record Semaforo : Type 0 where
  pub name : String
  pub init : ℤ
  pub max : ℤ
  pub value : ℤ
  pub blocked_list : List Ref

-- `t_process`.
pub record Process : Type 0 where
  pub ults : List Ref
  pub process_id : ℕ
  pub ready_list : List Ref
  pub exec_thread : Ref
  pub semaforo_ready : ℕ

module _ ⦃m : Machine⦄ where
  open m use {Double}

  -- `t_suse_thread`.
  pub record Thread : Type 0 where
    pub tid : ℕ
    pub estado : Estado
    pub proceso_id : ℕ
    pub duracion_rafaga : Double
    pub estimacion_ultima_rafaga : Double
    pub ejecutado_desde_estimacion : Bool
    pub joined_by : List Ref
    pub join_to : List Ref
    pub tiempo_de_ejecucion : Double
    pub tiempo_de_espera : Double
    pub tiempo_de_cpu : Double
    pub tiempo_inicial_en_ready : Double
    pub tiempo_inicial_en_exec : Double

  -- The globals of suse.c, the objects at each pointer, what was sent, and how often the clock was
  -- read.
  pub record Suse : Type 0 where
    pub threads : Ref → Option Thread
    pub processes : Ref → Option Process
    pub semaphores : Ref → Option Semaforo
    pub next_ref : Ref
    pub alpha_sjf : Double
    pub max_multiprog : ℤ
    pub actual_multiprog : ℤ
    pub process : List Ref
    pub semaforos : List Ref
    pub new_queue : List Ref
    pub blocked_queue : List Ref
    pub exit_queue : List Ref
    pub held : Mutex → Bool
    pub sent : List Envio
    pub reads : ℕ
