-- ===== src/Schema/Tree/Safety.antt =====
-- schema/*.go: unserialization with a well-formed schema returns an error or a value of the type that
-- ReflectedType names, within fuel above the schema's depth.
use arcaflow_plugin_sdk_go.Common.{
  ℕ, zero, suc, ◌<◌, some, ◌≡◌, refl, sym, ap, ◌∙◌, true, arith, subst, get_elem?, inl, inr,
  Bool-cases,
}
use arcaflow_plugin_sdk_go.Go.Value.{Value, GoType, string_map, comparable}
use arcaflow_plugin_sdk_go.Go.Result.{ok_injective, Result, ok, IsSafe}
use arcaflow_plugin_sdk_go.Go.Convert.{Floats}
use arcaflow_plugin_sdk_go.Schema.Types.{
  Schema, int_schema, float_schema, string_schema, bool_schema, pattern_schema, int_enum,
  string_enum, enum_values, list_schema, map_schema, any_schema, object_schema, ref_schema,
  scope_schema, one_of_schema, Object, object, Properties, no_properties, property, Choices,
  no_choices, choice, Store, reflected_type, properties, choices, object_properties, Key,
}
use arcaflow_plugin_sdk_go.Schema.Pattern.Safety.{unserialize_pattern-Sound}
use arcaflow_plugin_sdk_go.Schema.Scalar.Safety.{
  unserialize_int-Sound, unserialize_float-Sound, unserialize_string-Sound, unserialize_bool-Sound,
  unserialize_int_enum-Sound, unserialize_string_enum-Sound,
}
use arcaflow_plugin_sdk_go.Schema.List.Safety.{unserialize_list-Sound}
use arcaflow_plugin_sdk_go.Schema.Map.Safety.{unserialize_map-Sound}
use arcaflow_plugin_sdk_go.Schema.Any.Safety.{check_and_convert-Sound}
use arcaflow_plugin_sdk_go.Schema.Object.{unserialize_object}
use arcaflow_plugin_sdk_go.Schema.Object.Safety.{Handles, unserialize_object-Sound}
use arcaflow_plugin_sdk_go.Schema.OneOf.{find_type, same_key}
use arcaflow_plugin_sdk_go.Schema.OneOf.Safety.{unserialize_one_of-Sound}
use arcaflow_plugin_sdk_go.Schema.Sound.{Sound, Sound-IsSafe, StringKeyed}
use arcaflow_plugin_sdk_go.Schema.Tree.{unserialize}
use arcaflow_plugin_sdk_go.Schema.Tree.WellFormed.{
  depth, depth_object, depth_properties, depth_choices, Linked, LinkedProperties, LinkedChoices,
  WellFormed, LinkedObject, linked_object-eq-ok, root_object-eq-ok, reflected_type_total, rank_of,
}

module _ (fl : Floats) (store : Store) (rank : ℕ → ℕ) (wf : WellFormed store rank) where
  -- Unserialization with this much fuel is sound for every linked schema below the depth.
  abbrev SoundAt : ℕ → Type 0
  SoundAt f =
      (s : Schema) (v : Value) (t : GoType)
      → depth rank s < f
      → Linked store s
      → StringKeyed v
      → reflected_type store s ≡ ok t
      → Sound t (unserialize fl store f s v)

  IsSafe-at :
      (f : ℕ)
      → SoundAt f
      → (s : Schema) (v : Value) → depth rank s < f
      → Linked store s
      → StringKeyed v
      → IsSafe (unserialize fl store f s v)
  IsSafe-at f ih s v h l k =
      let (t, e) = reflected_type_total store s l in
      Sound-IsSafe t (unserialize fl store f s v) (ih s v t h l k e)

  Handles-properties :
      (f : ℕ) (ps : Properties)
      → SoundAt f
      → depth_properties rank ps < f
      → LinkedProperties store ps
      → Handles (λ p w. unserialize fl store f p.type w) (properties ps)
  unfolding depth Linked
  Handles-properties f no_properties ih h l = tt
  Handles-properties f (property id s r ps) ih h l = (
    λ v k. IsSafe-at f ih s v (omega arith) l.0 k,
    l.1,
    l.2,
    Handles-properties f ps ih (omega arith) l.3,
  )

  IsSafe-choice :
      (f : ℕ) (cs : Choices) (key : Key) (s : Schema)
      → SoundAt f
      → depth_choices rank cs < f
      → LinkedChoices store cs
      → find_type key (choices cs) ≡ some s
      → (w : Value) → StringKeyed w
      → IsSafe (unserialize fl store f s w)
  unfolding depth Linked find_type
  IsSafe-choice f no_choices key s ih h l e w k = cc
  IsSafe-choice f (choice j u cs) key s ih h l e w k = elim (Bool-cases (same_key j key)) [
    | inl same ↦
        let chosen : u ≡ s = ground arith in
        subst (λ x. IsSafe (unserialize fl store f x w)) chosen
          (IsSafe-at f ih u w (omega arith) l.0 k)
    | inr differ ↦ IsSafe-choice f cs key s ih (omega arith) l.1 (rw differ at e) w k
  ]

  Sound-object :
      (f : ℕ) (o : Object) (v : Value)
      → SoundAt f
      → depth_object rank o < f
      → LinkedObject store o
      → StringKeyed v
      → Sound string_map
          (unserialize_object (λ p w. unserialize fl store f p.type w) (object_properties o) v)
  unfolding depth Linked
  Sound-object f (object id unenforced ps) v ih h l k =
      unserialize_object-Sound (λ p w. unserialize fl store f p.type w) (properties ps) v
        (Handles-properties f ps ih h l) k

  -- An object in the store, one step of the recursion further down.
  Sound-stored :
      (f : ℕ) (a : ℕ) (o : Object) (v : Value)
      → SoundAt f
      → suc (rank a) < suc f
      → get_elem? store a ≡ some o
      → StringKeyed v
      → Sound string_map (unserialize fl store f (object_schema o) v)
  unfolding reflected_type
  Sound-stored f a o v ih h e k =
      ih (object_schema o) v string_map (omega (arith, wf.ranked a o e)) (wf.linked a o e) k refl

  of_type : {t u : GoType} (r : Result Value) → ok t ≡ ok u → Sound t r → Sound u r
  of_type r e h = subst (λ x. Sound x r) (ok_injective e) h

  -- In a well-formed store, Unserialize of a linked schema, whose units parse without a panic and whose maps have
  -- keys of comparable types, on data whose maps may have string keys, returns within any fuel above the schema's
  -- depth: it never panics, and it gives an error or a value of the type that ReflectedType names.
  pub unserialize-Sound :
      (f : ℕ) (s : Schema) (v : Value) (t : GoType)
      → depth rank s < f
      → Linked store s
      → StringKeyed v
      → reflected_type store s ≡ ok t
      → Sound t (unserialize fl store f s v)
  unfolding unserialize depth Linked reflected_type
  unserialize-Sound zero s v t h l k e = absurd (omega arith)
  unserialize-Sound (suc f) (int_schema lo hi u) v t h l k e =
      of_type _ e (unserialize_int-Sound fl lo hi u v l)
  unserialize-Sound (suc f) (float_schema lo hi u) v t h l k e =
      of_type _ e (unserialize_float-Sound fl lo hi u v l)
  unserialize-Sound (suc f) (string_schema lo hi p) v t h l k e =
      of_type _ e (unserialize_string-Sound fl lo hi p v)
  unserialize-Sound (suc f) bool_schema v t h l k e = of_type _ e (unserialize_bool-Sound v)
  unserialize-Sound (suc f) (pattern_schema compiles) v t h l k e =
      of_type _ e (unserialize_pattern-Sound fl compiles v)
  unserialize-Sound (suc f) (int_enum vs u) v t h l k e =
      of_type _ e (unserialize_int_enum-Sound fl (enum_values vs) u v l)
  unserialize-Sound (suc f) (string_enum vs) v t h l k e =
      of_type _ e (unserialize_string_enum-Sound fl (enum_values vs) v)
  unserialize-Sound (suc f) (list_schema s lo hi) v t h l k e =
      let (u, eu) = reflected_type_total store s l in
      of_type _ (rw eu at e) (
        rw eu (
          unserialize_list-Sound u (λ w. unserialize fl store f s w) lo hi v
            (λ w kw. unserialize-Sound f s w u (omega arith) l kw eu) k))
  unserialize-Sound (suc f) (map_schema key elem lo hi) v t h l k e =
      let (tk, ek) = reflected_type_total store key l.0 in
      let (tv, ev) = reflected_type_total store elem l.1 in
      let same : l.2.0 ≡ tk = ok_injective (sym l.2.1 ∙ ek) in
      let hashes : comparable tk ≡ true = ap comparable (sym same) ∙ l.2.2 in
      of_type _ (rw (ek, ev, hashes) at e) (
        rw (ek, ev)
          (unserialize_map-Sound fl tk tv (λ w. unserialize fl store f key w)
            (λ w. unserialize fl store f elem w) lo hi v hashes
            (λ w kw. unserialize-Sound f key w tk (omega arith) l.0 kw ek)
            (λ w kw. unserialize-Sound f elem w tv (omega arith) l.1 kw ev) k))
  unserialize-Sound (suc f) any_schema v t h l k e = of_type _ e (check_and_convert-Sound fl v)
  unserialize-Sound (suc f) (object_schema o) v t h l k e =
      of_type _ e (Sound-object f o v (λ s. unserialize-Sound f s) (omega arith) l k)
  unserialize-Sound (suc f) (ref_schema id ns link) v t h l k e =
      let (o, linked) = l in
      let (a, eq, stored) = linked_object-eq-ok store link o linked in
      of_type _ (rw linked at e) (
        rw linked (
          Sound-stored f a o v (λ s. unserialize-Sound f s)
            (subst (λ x. suc (rank_of rank x) < suc f) eq h) stored k))
  unserialize-Sound (suc f) (scope_schema objects root) v t h l k e =
      let (o, found) = l in
      let (a, eq, stored) = root_object-eq-ok store objects root o found in
      of_type _ (rw found at e) (
        rw found (
          Sound-stored f a o v (λ s. unserialize-Sound f s)
            (subst (λ x. suc (rank_of rank x) < suc f) eq h) stored k))
  unserialize-Sound (suc f) (one_of_schema kt cs d inlined) v t h l k e = of_type _ e (
      unserialize_one_of-Sound fl (λ s w. unserialize fl store f s w) kt (choices cs) d inlined v
        (λ key s found w kw.
          IsSafe-choice f cs key s (λ s. unserialize-Sound f s) (omega arith) l found w kw)
        k)
