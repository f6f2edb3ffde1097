-- ===== src/Topic/Matcher/Change.antt =====
-- A change of one filter's table, and how it passes from a child to its parent.
use mqtt_typed_client_next.Base.{Option, none, ◌≡◌, refl, arith, if◌then◌else◌}
use mqtt_typed_client_next.Base.Text.{Text, text_eq_iff}
use mqtt_typed_client_next.Topic.Filter.{TopicFilter, finish, multi, level, single, filter_eq}
use mqtt_typed_client_next.Topic.Matcher.{or_new, or_new_branch, new}
use mqtt_typed_client_next.Topic.Matcher.Children.{
  TopicMatcherNode, node, Children, Branch, absent, present, child, set_child, remove_child,
  child-set_child, child-remove_child,
}
use mqtt_typed_client_next.Topic.Matcher.Lookup.{table_at}

module _ {ℓ} {T : Type ℓ} where
  -- `m` holds `o` under the filter `k`, and under any other filter what `n` holds.
  abbrev pub Writes : TopicFilter → Option T → TopicMatcherNode T → TopicMatcherNode T → Type ℓ
  Writes k o n m = (g : TopicFilter) → table_at g m ≡ (if filter_eq k g then o else table_at g n)

  -- A new node has no table.
  pub table_at-new : (g : TopicFilter) → table_at g (new {T = T}) ≡ none
  unfolding table_at child
  table_at-new finish = refl
  table_at-new multi = refl
  table_at-new (level s g) = refl
  table_at-new (single g) = refl

  module _ (e : Option T) (c : Children T) (b : Branch T) (r : Option T) where
    pub Writes-finish : (o : Option T) → Writes finish o (node e c b r) (node o c b r)
    unfolding table_at
    Writes-finish o finish = refl
    Writes-finish o multi = refl
    Writes-finish o (level s g) = refl
    Writes-finish o (single g) = refl

    pub Writes-multi : (o : Option T) → Writes multi o (node e c b r) (node e c b o)
    unfolding table_at
    Writes-multi o finish = refl
    Writes-multi o multi = refl
    Writes-multi o (level s g) = refl
    Writes-multi o (single g) = refl

    pub table_at-level :
        (s : Text) (g : TopicFilter)
        → table_at g (or_new new (child s c)) ≡ table_at (level s g) (node e c b r)
    unfolding table_at
    table_at-level s g = ground (arith, table_at-new g)

    pub table_at-single :
        (g : TopicFilter) → table_at g (or_new_branch b) ≡ table_at (single g) (node e c b r)
    unfolding table_at
    table_at-single g = ground (arith, table_at-new g)

    module _ (s : Text) (k : TopicFilter) (o : Option T) (m : TopicMatcherNode T) where
      -- A write below a child is a write of the parent, once the child is put back.
      pub Writes-level :
          Writes k o (or_new new (child s c)) m
          → Writes (level s k) o (node e c b r) (node e (set_child s m c) b r)
      unfolding table_at
      Writes-level h finish = refl
      Writes-level h multi = refl
      Writes-level h (single g) = refl
      Writes-level h (level t g) =
          ground (arith, child-set_child t s m c, text_eq_iff s t, h g, table_at-level s g)

      -- So it is if the child is dropped, when nothing is left in it.
      pub Writes-level_drop :
          Writes k o (or_new new (child s c)) m
          → ((g : TopicFilter) → table_at g m ≡ none)
          → Writes (level s k) o (node e c b r) (node e (remove_child s c) b r)
      unfolding table_at
      Writes-level_drop h z finish = refl
      Writes-level_drop h z multi = refl
      Writes-level_drop h z (single g) = refl
      Writes-level_drop h z (level t g) =
          ground (arith, child-remove_child t s c, text_eq_iff s t, h g, z g, table_at-level s g)

    module _ (k : TopicFilter) (o : Option T) (m : TopicMatcherNode T) where
      pub Writes-single :
          Writes k o (or_new_branch b) m
          → Writes (single k) o (node e c b r) (node e c (present m) r)
      unfolding table_at
      Writes-single h finish = refl
      Writes-single h multi = refl
      Writes-single h (level t g) = refl
      Writes-single h (single g) = ground (arith, h g, table_at-single g)

      pub Writes-single_drop :
          Writes k o (or_new_branch b) m
          → ((g : TopicFilter) → table_at g m ≡ none)
          → Writes (single k) o (node e c b r) (node e c absent r)
      unfolding table_at
      Writes-single_drop h z finish = refl
      Writes-single_drop h z multi = refl
      Writes-single_drop h z (level t g) = refl
      Writes-single_drop h z (single g) = ground (arith, h g, z g, table_at-single g)
