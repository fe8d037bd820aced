-- ===== src/Sac/Escritura/Mutexes.antt =====
-- The mutex of a path in `escribir_archivo` of filesystem/sac_handlers.c.
use tp_sistemas_operativos.Base.{
  ℕ, suc, put, ◌≡◌, refl, ap, true, false, ==_refl, if◌then◌else◌, arith, ◌⊎◌, inl, inr, Bool-cases,
}
use tp_sistemas_operativos.Comandos.{ok, blocks}
use tp_sistemas_operativos.Sac.Disco.{Bitarrays, Cadena}
use tp_sistemas_operativos.Sac.Escritura.{Dictionaries, Servidor, mutex_de, tomar_mutex}

module _ ⦃c : Bitarrays⦄ ⦃k : Dictionaries⦄ where
  open k use {dictionary_has_key, dictionary_get, dictionary_put}

  -- The mutex of a path is free, if the path has one.
  abbrev pub MutexLibre : Servidor → Cadena → Type 0
  MutexLibre s path =
      (dictionary_has_key s.diccionario_de_mutex path ≡ false)
      ⊎ (s.mutexes (dictionary_get s.diccionario_de_mutex path) ≡ false)

  -- With the mutex taken, the disk is as it was.
  pub tomar_mutex-ok :
      (s : Servidor) (m : ℕ)
      → s.mutexes m ≡ false
      → tomar_mutex m s ≡ ok tt (record s { mutexes = put s.mutexes m true })
  unfolding tomar_mutex
  tomar_mutex-ok s m h =
      ap (λ b. if b then blocks else ok tt (record s { mutexes = put s.mutexes m true })) h

  abbrev con_mutex : Servidor → Cadena → Servidor
  con_mutex s path = record s {
    diccionario_de_mutex = dictionary_put s.diccionario_de_mutex path s.proximo_mutex;
    mutexes = put s.mutexes s.proximo_mutex false;
    proximo_mutex = suc s.proximo_mutex;
  }

  pub mutex_de-ok :
      (s : Servidor) (path : Cadena)
      → MutexLibre s path
      → (m : ℕ) × (t : Servidor) × (mutex_de path s ≡ ok m t)
        × (t.mutexes m ≡ false)
        × (t.disco ≡ s.disco)
  unfolding mutex_de
  mutex_de-ok s path libre = elim (Bool-cases (dictionary_has_key s.diccionario_de_mutex path)) [
    | inl h ↦ (dictionary_get s.diccionario_de_mutex path, s, rw h refl, suyo h libre, refl)
    | inr h ↦
        (s.proximo_mutex, con_mutex s path, rw h refl, rw (==_refl s.proximo_mutex) refl, refl)
  ]
    where
      suyo :
          dictionary_has_key s.diccionario_de_mutex path ≡ true
          → MutexLibre s path
          → s.mutexes (dictionary_get s.diccionario_de_mutex path) ≡ false
      suyo h (inl e) = absurd (ground (arith, h, e))
      suyo h (inr e) = e
