-- ===== src/Macros/Syntax.antt =====
-- The parts of Rust's syntax trees that macros/src reads, as the crate `syn` has them: types,
-- fields, structs and the expressions among the macro's arguments.
use mqtt_typed_client_next.Base.{Bool, false, not, ◌&&◌, Option, none, some, List, ◌==◌}
use mqtt_typed_client_next.Base.Text.{Text, text_Eq}

mutual
  -- A path is its leading colon and its segments; any other type is its text.
  pub data SynType : Type 0 where
    path : Bool → Segments → SynType
    other_type : Text → SynType

  pub data Segments : Type 0 where
    no_segments : Segments
    segment : Text → PathArguments → Segments → Segments

  pub data PathArguments : Type 0 where
    no_arguments parenthesized : PathArguments
    angle_bracketed : GenericArguments → PathArguments

  pub data GenericArguments : Type 0 where
    no_generics : GenericArguments
    type_argument : SynType → GenericArguments → GenericArguments
    other_argument : GenericArguments → GenericArguments

pub record Field : Type 0 where
  pub ident : Text
  pub ty : SynType

pub data Fields : Type 0 where
  named : List Field → Fields
  unnamed_or_not_a_struct : Fields

pub record DeriveInput : Type 0 where
  pub ident : Text
  pub fields : Fields

-- `parse_quote! { &str }`, and a path of one segment.
abbrev pub simple : Text → SynType
simple name = path false (segment name no_arguments no_segments)

pub data Expr : Type 0 where
  lit_str : Text → Expr
  expr_path : Bool → Segments → Expr
  assign : Expr → Expr → Expr
  other_expr : Expr

-- `segments.last()`: its name and its arguments.
unfoldable pub last : Segments → Option (Text × PathArguments)
last no_segments = none
last (segment name args no_segments) = some (name, args)
last (segment name args (segment next more rest)) = last (segment next more rest)

-- `path.is_ident(name)`.
unfoldable pub is_ident : Bool → Segments → Text → Bool
is_ident leading (segment name no_arguments no_segments) wanted = not leading && name == wanted
is_ident leading _ wanted = false

-- `segments.last().is_some_and(|s| s.ident == name)`.
unfoldable pub last_is : Segments → Text → Bool
unfolding last
last_is segments wanted = elim (last segments) [ none ↦ false | some (name, args) ↦ name == wanted ]
