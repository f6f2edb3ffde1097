-- ===== src/Topic/Matcher/Update.antt =====
-- What the two updates do to the table of each filter.
use mqtt_typed_client_next.Base.{
  Bool, true, false, Option, none, some, List, [], ◌∷◌, ◌≡◌, refl, arith, Option-cases, Bool-cases,
  inl, inr, ◌∙◌, sym, ap, ok,
}
use mathlib.Core.Path.{subst}
use mathlib.Core.Option.{some-injective}
use mqtt_typed_client_next.Base.Text.{Text}
use mqtt_typed_client_next.Topic.Item.{TopicPatternItem, str, plus, hash}
use mqtt_typed_client_next.Topic.Filter.{TopicFilter, finish, multi, level, single, filter_of}
use mqtt_typed_client_next.Topic.Matcher.{
  Payload, or_new, or_new_branch, new, get_or_create_subscription_table, update_node, is_empty,
  unless_empty,
}
use mqtt_typed_client_next.Topic.Matcher.Children.{
  TopicMatcherNode, node, Children, Branch, absent, present, child, set_child, remove_child,
  has_no_children, has_no_children-set_child, leaf, entry,
}
use mqtt_typed_client_next.Topic.Matcher.Lookup.{table_at}
use mqtt_typed_client_next.Topic.Matcher.Change.{
  Writes, Writes-level, Writes-single, Writes-level_drop, Writes-single_drop, Writes-finish,
  Writes-multi, table_at-level, table_at-single,
}

module _ {ℓ} {T : Type ℓ} ⦃p : Payload T⦄ where
  -- The reference that is handed out reads the table of the pattern's filter, or a default.
  pub table-get_or_create :
      (path : List TopicPatternItem) (n : TopicMatcherNode T)
      → (get_or_create_subscription_table path n).0 ≡ or_new p.default (table_at (filter_of path) n)
  unfolding get_or_create_subscription_table table_at
  table-get_or_create [] (node e c b r) = refl
  table-get_or_create (str s ∷ path) (node e c b r) =
      table-get_or_create path (or_new new (child s c))
      ∙ ap (or_new p.default) (table_at-level e c b r s (filter_of path))
  table-get_or_create (plus _ ∷ path) (node e c b r) =
      table-get_or_create path (or_new_branch b)
      ∙ ap (or_new p.default) (table_at-single e c b r (filter_of path))
  table-get_or_create (hash _ ∷ path) (node e c b r) = refl

  -- Writing through the reference changes the table of that filter and of no other.
  pub get_or_create-Writes :
      (path : List TopicPatternItem) (n : TopicMatcherNode T) (d : T)
      → Writes (filter_of path) (some d) n ((get_or_create_subscription_table path n).1 d)
  unfolding get_or_create_subscription_table
  get_or_create-Writes [] (node e c b r) d = Writes-finish e c b r (some d)
  get_or_create-Writes (str s ∷ path) (node e c b r) d =
      Writes-level e c b r s (filter_of path) (some d) _
        (get_or_create-Writes path (or_new new (child s c)) d)
  get_or_create-Writes (plus _ ∷ path) (node e c b r) d =
      Writes-single e c b r (filter_of path) (some d) _
        (get_or_create-Writes path (or_new_branch b) d)
  get_or_create-Writes (hash _ ∷ path) (node e c b r) d = Writes-multi e c b r (some d)

  -- No stored table is empty.
  abbrev pub IsClean : TopicMatcherNode T → Type ℓ
  IsClean n = (g : TopicFilter) (d : T) → table_at g n ≡ some d → p.is_empty d ≡ false

  -- A clean node that counts as empty has no table at all.
  pub table_at-is_empty :
      (n : TopicMatcherNode T)
      → IsClean n
      → is_empty n ≡ true
      → (g : TopicFilter) → table_at g n ≡ none
  unfolding is_empty table_at
  table_at-is_empty (node none c b y) clean z finish = refl
  table_at-is_empty (node (some d) c b y) clean z finish = ground (arith, clean finish d refl)
  table_at-is_empty (node e c b none) clean z multi = refl
  table_at-is_empty (node e c b (some d)) clean z multi = ground (arith, clean multi d refl)
  table_at-is_empty (node e leaf b y) clean z (level s g) = unfold child in refl
  table_at-is_empty (node e (entry t n c) b y) clean z (level s g) =
      unfold has_no_children in ground arith
  table_at-is_empty (node e c absent y) clean z (single g) = refl
  table_at-is_empty (node e c (present n) y) clean z (single g) = ground arith

  -- An update keeps a clean node clean.
  Writes-IsClean :
      (k : TopicFilter) (d : T) (n m : TopicMatcherNode T)
      → IsClean n
      → Writes k (unless_empty d) n m
      → IsClean m
  Writes-IsClean k d n m clean writes g x h = ground (arith, clean g x, writes g)

  -- What `update_node` returns where the filter has the table `d`.
  abbrev pub Applied : List TopicPatternItem → (T → T) → TopicMatcherNode T → T → Type ℓ
  Applied path f n d =
      (r : TopicMatcherNode T × Bool) × (update_node path f n ≡ ok r)
      × Writes (filter_of path) (unless_empty (f d)) n r.0
      × (r.1 ≡ is_empty r.0)

  module _ (path : List TopicPatternItem) (f : T → T) (d : T) (m : TopicMatcherNode T)
      (clean : IsClean m) where
    -- Below a literal.
    level_Applied :
        (s : Text) (e : Option T) (c : Children T) (b : Branch T) (y : Option T)
        → child s c ≡ some m
        → Applied path f m d
        → Applied (str s ∷ path) f (node e c b y) d
    unfolding update_node
    level_Applied s e c b y at ((m', true), runs, writes, flag) = (
      (node e (remove_child s c) b y, is_empty (node e (remove_child s c) b y)),
      rw (at, update_node, runs),
      Writes-level_drop e c b y s (filter_of path) (unless_empty (f d)) m' (rw at writes) (
          table_at-is_empty m' (Writes-IsClean (filter_of path) (f d) m m' clean writes)
            (sym flag)),
      refl,
    )
    level_Applied s e c b y at ((m', false), runs, writes, flag) = (
      (node e (set_child s m' c) b y, false),
      rw (at, update_node, runs),
      Writes-level e c b y s (filter_of path) (unless_empty (f d)) m' (rw at writes),
      unfold is_empty in ground (arith, has_no_children-set_child s m' c),
    )

    -- Below `+`.
    single_Applied :
        (name : Option Text) (e : Option T) (c : Children T) (y : Option T)
        → Applied path f m d
        → Applied (plus name ∷ path) f (node e c (present m) y) d
    unfolding update_node
    single_Applied name e c y ((m', true), runs, writes, flag) = (
      (node e c absent y, is_empty (node e c absent y)),
      rw runs,
      Writes-single_drop e c (present m) y (filter_of path) (unless_empty (f d)) m' writes (
          table_at-is_empty m' (Writes-IsClean (filter_of path) (f d) m m' clean writes)
            (sym flag)),
      refl,
    )
    single_Applied name e c y ((m', false), runs, writes, flag) = (
      (node e c (present m') y, false),
      rw runs,
      Writes-single e c (present m) y (filter_of path) (unless_empty (f d)) m' writes,
      unfold is_empty in ground arith,
    )

  module _ (f : T → T) where
    finish_Applied :
        (x : T) (c : Children T) (b : Branch T) (y : Option T)
        → Applied [] f (node (some x) c b y) x
    unfolding update_node
    finish_Applied x c b y =
        let n = node (unless_empty (f x)) c b y in
        ((n, is_empty n), refl, Writes-finish (some x) c b y (unless_empty (f x)), refl)

    multi_Applied :
        (name : Option Text) (path : List TopicPatternItem) (e : Option T) (c : Children T)
        (b : Branch T) (x : T)
        → Applied (hash name ∷ path) f (node e c b (some x)) x
    unfolding update_node
    multi_Applied name path e c b x = elim (Bool-cases (p.is_empty (f x))) [
      | inl z ↦ (
        (node e c b none, is_empty (node e c b none)),
        rw z,
        rw z (Writes-multi e c b (some x) none),
        refl,
      )
      | inr z ↦ (
        (node e c b (some (f x)), false),
        rw z,
        rw z (Writes-multi e c b (some x) (some (f x))),
        unfold is_empty in ground arith,
      )
    ]

    -- On a clean trie an update of a table that is there succeeds, changes that table alone, drops
    -- it if it has become empty, and reports whether the whole trie has become empty.
    pub update_node-Applied :
        (path : List TopicPatternItem) (n : TopicMatcherNode T) (d : T)
        → IsClean n
        → table_at (filter_of path) n ≡ some d
        → Applied path f n d
    update_node-Applied [] (node (some x) c b y) d clean h =
        subst (Applied [] f (node (some x) c b y)) (some-injective x d (unfold table_at in h))
          (finish_Applied x c b y)
    update_node-Applied [] (node none c b y) d clean h = absurd (unfold table_at in cc)
    update_node-Applied (str s ∷ path) (node e c b y) d clean h = elim (Option-cases (child s c)) [
      | inl e' ↦ absurd (unfold table_at in ground arith)
      | inr (m, e') ↦
          let cm : IsClean m =
            λ g x q. clean (level s g) x (sym (table_at-level e c b y s g) ∙ rw e' q) in
          level_Applied path f d m cm s e c b y e' (
            update_node-Applied path m d cm
              (rw e' at (table_at-level e c b y s (filter_of path) ∙ h)))
    ]
    update_node-Applied (plus name ∷ path) (node e c absent y) d clean h =
        absurd (unfold table_at in cc)
    update_node-Applied (plus name ∷ path) (node e c (present m) y) d clean h =
        let cm : IsClean m =
          λ g x q. clean (single g) x (sym (table_at-single e c (present m) y g) ∙ q) in
        single_Applied path f d m cm name e c y
          (update_node-Applied path m d cm (table_at-single e c (present m) y (filter_of path) ∙ h))
    update_node-Applied (hash name ∷ path) (node e c b none) d clean h =
        absurd (unfold table_at in cc)
    update_node-Applied (hash name ∷ path) (node e c b (some x)) d clean h =
        subst (Applied (hash name ∷ path) f (node e c b (some x)))
          (some-injective x d (unfold table_at in h)) (multi_Applied name path e c b x)
