-- ===== src/Access/Roles.antt =====
-- addons/mezze_bridge/domain/authz.py: what the table of roles and the registry of endpoints grant.
use menes_pos.Prelude.{
  String, ◌≡◌, refl, sym, ◌∙◌, subst, inl, inr, Bool, true, false, not, ◌&&◌, ◌||◌, Option, none,
  some, some-injective, List, [], ◌∷◌, arith, if◌then◌else◌, str_eq, str_eq_iff, Bool-cases, any,
  all, get, get_or, elem,
}
use menes_pos.Access.Authz.{
  orders_refund, orders_void, orders_comp, orders_discount, orders_cancel, all_capabilities,
  role_caps, can,
}

-- The roles that may give money back or take an order off: the others sell.
abbrev pub trusted_roles : List String
trusted_roles = "supervisor" ∷ "manager" ∷ "admin" ∷ "administrator" ∷ []

abbrev pub money_back : List String
money_back = orders_refund ∷ orders_void ∷ orders_comp ∷ orders_discount ∷ orders_cancel ∷ []

-- A row of the table that holds one of the capabilities is a trusted role's.
abbrev is_guarded : String × List String → Bool
is_guarded (role, caps) = elem role trusted_roles || not (any (λ c. elem c caps) money_back)

get-all :
    (p : String × List String → Bool) (t : List (String × List String)) (role : String)
    (caps : List String)
    → all p t ≡ true
    → get t role ≡ some caps
    → p (role, caps) ≡ true
get-all p [] role caps h e = cc
get-all p ((j, c) ∷ t) role caps h e = elim (Bool-cases (str_eq j role)) [
  | inl same ↦
      subst (λ k. p (k, caps) ≡ true) ((str_eq_iff j role).0 same)
        (subst (λ v. p (j, v) ≡ true) (hit_value same) (first _ _ h))
  | inr other ↦ get-all p t role caps (rest _ _ h) (later other)
]
  where
    first : (a b : Bool) → (a && b) ≡ true → a ≡ true
    first a b h = ground arith

    rest : (a b : Bool) → (a && b) ≡ true → b ≡ true
    rest a b h = ground arith

    hit_value : str_eq j role ≡ true → c ≡ caps
    hit_value same = some-injective _ _ (sym (rw same refl) ∙ e)

    later : str_eq j role ≡ false → get t role ≡ some caps
    later other = sym (rw other refl) ∙ e

any-elem :
    (p : String → Bool) (xs : List String) (k : String)
    → elem k xs ≡ true
    → p k ≡ true
    → any p xs ≡ true
any-elem p [] k h e = cc
any-elem p (x ∷ xs) k h e = elim (Bool-cases (str_eq x k)) [
  | inl same ↦ rw (subst (λ v. p v ≡ true) (sym ((str_eq_iff x k).0 same)) e) refl
  | inr other ↦ rw (any-elem p xs k (elsewhere other) e) (or_true (p x))
]
  where
    elsewhere : str_eq x k ≡ false → elem k xs ≡ true
    elsewhere other = ground arith

    or_true : (b : Bool) → (b || true) ≡ true
    or_true true = refl
    or_true false = refl

guarded_role : (a b : Bool) → (a || not b) ≡ true → b ≡ true → a ≡ true
guarded_role a b h e = ground arith

-- Whoever may refund, void, comp, discount or cancel has one of the four trusted roles.
pub money_back_roles :
    (role capability : String)
    → elem capability money_back ≡ true
    → can role capability ≡ true
    → elem role trusted_roles ≡ true
unfolding can
money_back_roles role capability h e =
    known (get role_caps role) refl (held (elem capability all_capabilities) e)
  where
    held_by : Option (List String) → List String
    held_by none = []
    held_by (some caps) = caps

    nothing : false ≡ true → elem role trusted_roles ≡ true
    nothing h = cc

    held :
        (b : Bool)
        → (if not b then false else elem capability (get_or role_caps role [])) ≡ true
        → elem capability (get_or role_caps role []) ≡ true
    held true e = e
    held false e = cc

    known :
        (found : Option (List String))
        → get role_caps role ≡ found
        → elem capability (get_or role_caps role []) ≡ true
        → elem role trusted_roles ≡ true
    known none miss has =
        nothing (subst (λ (o : Option (List String)). elem capability (held_by o) ≡ true) miss has)
    known (some caps) hit has =
        guarded_role (elem role trusted_roles) (any (λ c. elem c caps) money_back)
          (get-all is_guarded role_caps role caps refl hit)
          (any-elem (λ c. elem c caps) money_back capability h
            (subst (λ (o : Option (List String)). elem capability (held_by o) ≡ true) hit has))
