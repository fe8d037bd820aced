-- ===== src/Ejemplos/Wire.antt =====
-- Messages and lists of strings on concrete buffers.
use tp_sistemas_operativos.Base.{◌+◌, ◌^◌, ◌<◌, ◌≡◌, refl, some, List, [], ◌∷◌, arith, map}
use tp_sistemas_operativos.Wire.Bytes.{Buffer}
use tp_sistemas_operativos.Wire.Serial.{
  CString, c_string, size_of_string, size_of_list_of_strings_to_serialize, serializar_lista_strings,
  serializar_valores, serializar_string, serializar_int, deserializar_lista_strings,
}
use tp_sistemas_operativos.Wire.Serial.RoundTrip.{
  deserializar-serializar_lista, serializar_lista-size,
}
use tp_sistemas_operativos.Wire.Message.{
  Function, Message, message_call, message_function_ret, var_size_t, var_char_ptr, message_encode,
  message_decode, tam_data_function,
}
use tp_sistemas_operativos.Wire.Message.RoundTrip.{message_decode-encode}
use tp_sistemas_operativos.Wire.Message.Respuesta.{answer_decode-encode}

abbrev vacio : Buffer
vacio = λ i. 0

-- "ab" and "c".
abbrev textos : List CString
textos = (97 ∷ 98 ∷ []) ∷ (99 ∷ []) ∷ []

textos_cortos : (serializar_lista_strings (vacio, 7) textos).1 < 2 ^ 31
unfolding serializar_lista_strings serializar_valores serializar_string serializar_int
    size_of_string
textos_cortos = omega arith

deserializar-serializar_lista_example :
    (map c_string (deserializar_lista_strings (serializar_lista_strings (vacio, 7) textos).0 7).0
      ≡ textos)
    × ((deserializar_lista_strings (serializar_lista_strings (vacio, 7) textos).0 7).1
        ≡ (serializar_lista_strings (vacio, 7) textos).1)
unfolding size_of_string
deserializar-serializar_lista_example =
    deserializar-serializar_lista vacio 7 textos
      (
        ((λ h. omega (arith, h)), ((λ h. omega (arith, h)), tt)),
        (((λ h. omega (arith, h)), tt), tt),
      )
      textos_cortos

-- A call with a size and a path.
abbrev llamada : Function
llamada = record {
  type = 3;
  args =
      record { size = 8; value = var_size_t 4096 }
      ∷ record { size = 2; value = var_char_ptr (47 ∷ 0 ∷ []) }
      ∷ [];
}

abbrev mensaje : Message
mensaje = record { caller_id = 20; data_size = 22; cuerpo = message_call llamada }

tamano : 22 ≡ tam_data_function llamada
unfolding tam_data_function
tamano = refl

message_decode-encode_example :
    ((message_encode mensaje vacio 64).1 ≡ some (7 + tam_data_function llamada))
    × (message_decode (message_encode mensaje vacio 64).0 64
        ≡ some (mensaje, some (7 + tam_data_function llamada)))
message_decode-encode_example = message_decode-encode mensaje llamada vacio 64 (record {
  call = refl;
  function = record {
    type_byte = omega arith;
    at_most_nine = omega arith;
    all_args = (
      record { small = omega arith; fits = (omega arith, omega arith) },
      (record { small = omega arith; fits = refl }, tt),
    );
  };
  caller = omega arith;
  sized = tamano;
  room = omega arith;
  small = omega arith;
})

serializar_lista-size_example :
    (serializar_lista_strings (vacio, 0) textos).1 ≡ size_of_list_of_strings_to_serialize textos
serializar_lista-size_example = serializar_lista-size vacio textos

abbrev respuesta : Message
respuesta = record { caller_id = 20; data_size = 4; cuerpo = message_function_ret 65536 }

answer_decode-encode_example :
    ((message_encode respuesta vacio 11).1 ≡ some 11)
    × (message_decode (message_encode respuesta vacio 11).0 11 ≡ some (respuesta, some 11))
answer_decode-encode_example = answer_decode-encode respuesta 65536 vacio 11 (record {
  answer = refl;
  word = omega arith;
  caller = omega arith;
  sized = refl;
  room = omega arith;
})
