-- ===== src/Macros/Naming.antt =====
-- macros/src/naming.rs. The case of a character is that of ASCII, which Rust identifiers mostly
-- are: a letter outside ASCII stands unchanged here.
use mqtt_typed_client_next.Base.{ℕ, ◌+◌, Bool, ◌&&◌, [], ◌∷◌, ◌++◌, leb, if◌then◌else◌}
use mqtt_typed_client_next.Base.Text.{Text, codes, is_empty}

abbrev pub is_uppercase : ℕ → Bool
is_uppercase c = leb 65 c && leb c 90

-- The loop over the characters, with the text written so far.
unfoldable pub snake_loop : Text → Text → Text
snake_loop result [] = result
snake_loop result (ch ∷ rest) =
    snake_loop
      (if is_uppercase ch
        then (if is_empty result then result else result ++ b'_' ∷ []) ++ (ch + 32) ∷ []
        else result ++ ch ∷ [])
      rest

unfoldable pub to_snake_case : Text → Text
unfolding snake_loop
to_snake_case input = snake_loop [] input

pub record TypedClientNames : Type 0 where
  pub method_name : Text
  pub client_struct : Text
  pub extension_trait : Text

unfoldable pub from_struct_name : Text → TypedClientNames
unfolding to_snake_case
from_struct_name struct_name = record {
  method_name = to_snake_case struct_name;
  client_struct = struct_name ++ codes "Client";
  extension_trait = struct_name ++ codes "Ext";
}
