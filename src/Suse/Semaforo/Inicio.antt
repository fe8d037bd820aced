-- ===== src/Suse/Semaforo/Inicio.antt =====
-- The semaphores of suse.c as `init_semaforos` makes them from the configuration.
use Prim.Native.String.{String}
use mathlib.Core.Option.{some-injective}
use tp_sistemas_operativos.Base.{
  suc, ◌≡◌, refl, sym, ◌∙◌, subst, Bool, true, false, Option, some, List, [], ◌∷◌, All, ◌==◌,
  if◌then◌else◌,
}
use tp_sistemas_operativos.Base.Int.{neg_part}
use tp_sistemas_operativos.Commons.{Ref, Machine}
use tp_sistemas_operativos.Suse.State.{Semaforo, Suse}
use tp_sistemas_operativos.Suse.Run.{ok, pure, modify, put_at, set_semaforos, new_semaphore_object}
use tp_sistemas_operativos.Suse.Eval.{bind-ok, then-ok}
use tp_sistemas_operativos.Suse.Semaphores.{init_semaforos}
use tp_sistemas_operativos.Suse.Semaforo.Balance.{IsBalanced}

module _ ⦃m : Machine⦄ where
  open m use {atoi, list_add}

  -- Every semaphore is balanced.
  abbrev pub AllBalanced : Suse → Type 0
  AllBalanced s = (r : Ref) (x : Semaforo) → s.semaphores r ≡ some x → IsBalanced x

  -- The entries of `SEM_IDS`, `SEM_INIT` and `SEM_MAX`, with no negative initial value.
  abbrev pub IsConfig : List (String × String × String) → Type 0
  IsConfig = All (λ e. neg_part (atoi e.1) ≡ 0)

  abbrev inicial : String → String → String → Semaforo
  inicial id init max = record {
    name = id;
    init = atoi init;
    max = atoi max;
    value = atoi init;
    blocked_list = [];
  }

  -- The state with one more semaphore, before and after it is put on the list.
  abbrev creado : Suse → Semaforo → Suse
  creado s x = record s {
    semaphores = put_at s.semaphores s.next_ref (some x);
    next_ref = suc s.next_ref;
  }

  abbrev anotado : Suse → Semaforo → Suse
  anotado s x = record (creado s x) { semaforos = list_add s.semaforos s.next_ref }

  uno_mas :
      (b : Bool) (x y : Semaforo) (o : Option Semaforo)
      → IsBalanced x
      → (o ≡ some y → IsBalanced y)
      → (if b then some x else o) ≡ some y
      → IsBalanced y
  uno_mas true x y o w h e = subst IsBalanced (some-injective x y e) w
  uno_mas false x y o w h e = h e

  anotado-AllBalanced :
      (s : Suse) (x : Semaforo) → IsBalanced x → AllBalanced s → AllBalanced (anotado s x)
  anotado-AllBalanced s x w h r y e = uno_mas (r == s.next_ref) x y (s.semaphores r) w (h r y) e

  -- With no negative initial value in the configuration, `init_semaforos` returns, and every
  -- semaphore is balanced, if those that there were already are.
  pub init_semaforos-AllBalanced :
      (l : List (String × String × String)) (s : Suse)
      → IsConfig l
      → AllBalanced s
      → (t : Suse) × (init_semaforos l s ≡ ok tt t) × AllBalanced t
  unfolding init_semaforos new_semaphore_object set_semaforos modify pure
  init_semaforos-AllBalanced [] s h w = (s, refl, w)
  init_semaforos-AllBalanced ((id, init, max) ∷ rest) s h w =
      let x = inicial id init max in
      let bal : IsBalanced x = record { count = sym h.0; threads = tt } in
      let r = init_semaforos-AllBalanced rest (anotado s x) h.1 (anotado-AllBalanced s x bal w) in
      (
        r.0,
        bind-ok (new_semaphore_object x) _ s (creado s x) s.next_ref refl
            ∙ then-ok (set_semaforos λ q. list_add q.semaforos s.next_ref) _ (creado s x)
                (anotado s x) tt refl
            ∙ r.1,
        r.2,
      )
