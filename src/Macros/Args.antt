-- ===== src/Macros/Args.antt =====
-- The macro's arguments, from macros/src/lib.rs: `parse_macro_args` on the expressions that the
-- crate `syn` has parsed between the commas.
pub mod Laws
use mqtt_typed_client_next.Base.{
  Bool, true, false, not, ◌||◌, ◌&&◌, Option, none, some, List, [], ◌∷◌, ◌++◌, length, any, ltb,
  if◌then◌else◌, Result, ok, err, ◌>>=◌, ◌==◌, map_err,
}
use mqtt_typed_client_next.Base.Text.{Text, text_Eq, codes, is_empty}
use mqtt_typed_client_next.Topic.Item.{TopicPatternError}
use mqtt_typed_client_next.Topic.Cache.{no_cache, LruCache}
use mqtt_typed_client_next.Topic.TopicMatch.{TopicMatch}
use mqtt_typed_client_next.Topic.PatternPath.{TopicPatternPath, new_from_string, is_named}
use mqtt_typed_client_next.Topic.PatternPath.Access.{contains_hash}
use mqtt_typed_client_next.Macros.Syntax.{
  SynType, path, Expr, lit_str, expr_path, assign, other_expr, is_ident,
}

pub data ArgsError : Type 0 where
  no_pattern pattern_not_a_literal serializer_not_a_path unknown_parameter : ArgsError
  invalid_syntax invalid_argument too_many_modes no_mode hash_in_publisher : ArgsError
  invalid_pattern : TopicPatternError → ArgsError

pub record MacroArgs (C : Type 0) : Type 0 where
  pub pattern : TopicPatternPath C
  pub generate_subscriber : Bool
  pub generate_publisher : Bool
  pub generate_typed_client : Bool
  pub generate_last_will : Bool
  pub custom_serializer : Option SynType

-- The variables of the loop over the arguments: `explicit_modes` and `custom_serializer`.
pub record Flags : Type 0 where
  pub explicit_modes : List Text
  pub custom_serializer : Option SynType

abbrev pub no_flags : Flags
no_flags = record { explicit_modes = []; custom_serializer = none }

abbrev pub push_mode : Text → Flags → Flags
push_mode mode flags = record flags { explicit_modes = flags.explicit_modes ++ mode ∷ [] }

-- `serializer = Type`.
unfoldable pub parse_assign : Expr → Expr → Flags → Result Flags ArgsError
unfolding is_ident
parse_assign (expr_path leading segments) (expr_path colon target) flags =
    if is_ident leading segments (codes "serializer")
    then ok (record flags { custom_serializer = some (path colon target) })
    else err unknown_parameter
parse_assign (expr_path leading segments) right flags =
    if is_ident leading segments (codes "serializer")
    then err serializer_not_a_path
    else err unknown_parameter
parse_assign left right flags = err invalid_syntax

unfoldable pub parse_flag : Expr → Flags → Result Flags ArgsError
unfolding is_ident parse_assign
parse_flag (expr_path leading segments) flags =
    if is_ident leading segments (codes "subscriber")
    then ok (push_mode (codes "subscriber") flags)
    else if is_ident leading segments (codes "publisher")
    then ok (push_mode (codes "publisher") flags)
    else err invalid_argument
parse_flag (assign left right) flags = parse_assign left right flags
parse_flag _ flags = err invalid_argument

unfoldable pub parse_flags : List Expr → Flags → Result Flags ArgsError
parse_flags [] flags = ok flags
parse_flags (arg ∷ rest) flags = parse_flag arg flags >>= parse_flags rest

abbrev pub with_mode : Text → List Text → Bool
with_mode mode modes = if is_empty modes then true else is_named mode modes

module _ {C : Type 0} (topic_pattern : TopicPatternPath C) (flags : Flags) where
  -- What follows the loop.
  unfoldable pub validated_args : Result (MacroArgs C) ArgsError
  validated_args =
      let generate_subscriber = with_mode (codes "subscriber") flags.explicit_modes in
      let generate_publisher = with_mode (codes "publisher") flags.explicit_modes in
      if ltb 2 (length flags.explicit_modes)
      then err too_many_modes
      else if not (generate_subscriber || generate_publisher)
      then err no_mode
      else if generate_publisher && contains_hash topic_pattern
      then err hash_in_publisher
      else ok (record {
        pattern = topic_pattern;
        generate_subscriber = generate_subscriber;
        generate_publisher = generate_publisher;
        generate_typed_client = true;
        generate_last_will = generate_publisher;
        custom_serializer = flags.custom_serializer;
      })

module _ (cache : LruCache Text TopicMatch) where
  open cache use {Cache}

  unfoldable pub parse_topic_pattern : Text → Result (TopicPatternPath Cache) ArgsError
  unfolding new_from_string
  parse_topic_pattern topic_pattern_str =
      map_err invalid_pattern (new_from_string cache topic_pattern_str no_cache)

  unfoldable pub parse_macro_args : List Expr → Result (MacroArgs Cache) ArgsError
  unfolding parse_topic_pattern parse_flags validated_args
  parse_macro_args [] = err no_pattern
  parse_macro_args (lit_str pattern ∷ rest) = do
    topic_pattern ← parse_topic_pattern pattern
    flags ← parse_flags rest no_flags
    validated_args topic_pattern flags
  parse_macro_args (_ ∷ rest) = err pattern_not_a_literal
