-- ===== src/Sac/Servidor/Mkdir.antt =====
-- A request to make a directory, and a request for its attributes, to filesystem/sac_servidor.c.
use tp_sistemas_operativos.Base.{
  ℕ, ◌<◌, ◌≡◌, refl, ap, ◌∙◌, false, some, List, [], ◌∷◌, ◌++◌, ◌==◌, if◌then◌else◌, length,
}
use tp_sistemas_operativos.Base.Int.{pos}
use tp_sistemas_operativos.Comandos.{ok, Cmd, or_fault, gets, pure, ◌>>=◌}
use tp_sistemas_operativos.Comandos.Eval.{bind-ok}
use tp_sistemas_operativos.Wire.Message.{Arg, Function, var_char_ptr}
use tp_sistemas_operativos.Sac.Disco.{
  Bitarrays, Rutas, Disco, Cadena, max_number_of_files, max_name_size,
}
use tp_sistemas_operativos.Sac.Nodos.{determine_nodo, mismo_texto}
use tp_sistemas_operativos.Sac.Nodos.Busqueda.{BienFormado}
use tp_sistemas_operativos.Sac.Nodos.Crear.{crear_nuevo_nodo, nodo_sin_uso}
use tp_sistemas_operativos.Sac.Nodos.Nuevo.{Ninguno}
use tp_sistemas_operativos.Sac.Nodos.Directorio.{Directorio}
use tp_sistemas_operativos.Sac.Nodos.Mkdir.{crear_nuevo_nodo-determine_nodo}
use tp_sistemas_operativos.Sac.Escritura.{Dictionaries, Servidor, en_disco, con_disco}
use tp_sistemas_operativos.Sac.Servidor.{
  arg_uint32, arg_en, val_charptr, hasta_nul, texto_de, raiz, enviar_respuesta_basica,
  function_rta_mkdir, function_rta_getattr,
}
use tp_sistemas_operativos.Sac.Servidor.Respuestas.{
  sac_server_mkdir, sac_server_getattr, atributos, modo_de,
}
use tp_sistemas_operativos.Sac.Servidor.Pedidos.{consultar, sobre_path, fuse_invoke_function}

-- A request of a type with a text alone.
abbrev pub pedido : ℕ → List ℕ → Function
pedido tipo xs =
    let a : Arg = record { size = length xs; value = var_char_ptr xs } in
    record { type = tipo; args = a ∷ [] }

texto_de-pedido :
    {S : Type 0} (s : S) (tipo : ℕ) (xs : List ℕ) (path : Cadena)
    → hasta_nul xs ≡ some path
    → texto_de (pedido tipo xs).args 0 s ≡ ok path s
unfolding texto_de arg_en val_charptr ◌>>=◌ or_fault
texto_de-pedido s tipo xs path h = ap (λ o. or_fault o s) h

module _ ⦃c : Bitarrays⦄ ⦃r : Rutas⦄ ⦃k : Dictionaries⦄ where
  open r use {string_split, dirname}

  consultar-pedido :
      (s : Servidor) (f : Disco → Cadena → Function) (tipo : ℕ) (xs : List ℕ) (path : Cadena)
      → hasta_nul xs ≡ some path
      → consultar f (pedido tipo xs).args s ≡ ok (f s.disco path) s
  unfolding consultar gets
  consultar-pedido s f tipo xs path h =
      bind-ok (texto_de (pedido tipo xs).args 0) (λ p. gets λ s. f s.disco p) s s path
        (texto_de-pedido s tipo xs path h)

  sobre_path-pedido :
      (s : Servidor) (f : Cadena → Cmd Disco Function) (tipo : ℕ) (xs : List ℕ) (path : Cadena)
      (g : Function) (d : Disco)
      → hasta_nul xs ≡ some path
      → f path s.disco ≡ ok g d
      → sobre_path f (pedido tipo xs).args s ≡ ok g (record s { disco = d })
  unfolding sobre_path en_disco
  sobre_path-pedido s f tipo xs path g d h e =
      bind-ok (texto_de (pedido tipo xs).args 0) (λ p. en_disco (f p)) s s path
        (texto_de-pedido s tipo xs path h)
      ∙ ap (con_disco s) e

  mkdir-ok :
      (d d' : Disco) (path : Cadena)
      → crear_nuevo_nodo path 2 d ≡ ok (pos 0) d'
      → sac_server_mkdir path d ≡ ok (enviar_respuesta_basica (pos 0) function_rta_mkdir) d'
  unfolding sac_server_mkdir pure
  mkdir-ok d d' path e =
      bind-ok (crear_nuevo_nodo path 2) (λ z. pure (enviar_respuesta_basica z function_rta_mkdir)) d
        d' (pos 0) e

  getattr-atributos :
      (d : Disco) (path : Cadena) (n : ℕ)
      → mismo_texto path raiz ≡ false
      → determine_nodo d path ≡ pos n
      → sac_server_getattr d path ≡ atributos d (pos n)
  unfolding sac_server_getattr
  getattr-atributos d path n h e = rw (h) (ap (atributos d) e)

  primer_atributo :
      (d : Disco) (n : ℕ)
      → (d.tabla_de_nodos n).state ≡ 2
      → arg_en (atributos d (pos n)).args 0 ≡ some (arg_uint32 16895)
  unfolding arg_en atributos modo_de
  primer_atributo d n e = ap (λ s. some (arg_uint32 (if s == 1 then 33279 else 16895))) e

  -- In a table that is well formed, with `s_tablaDeNodos` free, a node `k` that is not in use as the
  -- first one, a path other than "/" whose directory is the root or a node that its names lead to,
  -- and a last name that fits and that no node has (deleted ones included) in this directory nor in
  -- the one that `validar_si_ya_existe_otro` takes for it: a request FUNCTION_MKDIR with this path is
  -- answered with FUNCTION_RTA_MKDIR and 0, and a request FUNCTION_GETATTR with it after that with
  -- FUNCTION_RTA_GETATTR and the mode of a directory as the first argument.
  pub fuse_invoke_function-mkdir_getattr :
      (s : Servidor) (tope : ℕ) (xs : List ℕ) (path nombre : Cadena) (nombres : List Cadena)
      (padre validado k : ℕ)
      → BienFormado s.disco
      → s.disco.s_tabla_de_nodos ≡ false
      → nodo_sin_uso s.disco 0 max_number_of_files ≡ k
      → k < max_number_of_files
      → hasta_nul xs ≡ some path
      → mismo_texto path raiz ≡ false
      → string_split path ≡ nombres ++ nombre ∷ []
      → string_split (dirname path) ≡ nombres
      → Directorio s.disco nombres padre validado
      → length nombre < max_name_size
      → Ninguno s.disco padre nombre
      → Ninguno s.disco validado nombre
      → (s' : Servidor) × (f : Function) × (fuse_invoke_function tope (pedido 25 xs) s
          ≡ ok (enviar_respuesta_basica (pos 0) function_rta_mkdir) s')
        × (fuse_invoke_function tope (pedido 9 xs) s' ≡ ok f s')
        × (f.type ≡ function_rta_getattr)
        × (arg_en f.args 0 ≡ some (arg_uint32 16895))
  unfolding fuse_invoke_function atributos
  fuse_invoke_function-mkdir_getattr s tope xs path nombre nombres padre validado k w suelta ek hk
        hx hp ep ed dir cabe np nv =
      let (d', e, w', en, st, libre) =
        crear_nuevo_nodo-determine_nodo s.disco path nombre nombres padre validado k w suelta ek hk
          ep ed dir cabe np nv in
      let s' : Servidor = record s { disco = d' } in
      (
        s',
        atributos d' (pos k),
        sobre_path-pedido s sac_server_mkdir 25 xs path _ d' hx (mkdir-ok s.disco d' path e),
        consultar-pedido s' sac_server_getattr 9 xs path hx
            ∙ ap (λ f. ok f s') (getattr-atributos d' path k hp en),
        refl,
        primer_atributo d' k st,
      )
