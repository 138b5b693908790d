-- ===== src/BundleUpdater/Versions.antt =====
-- The last version in the state's file, over any calls of src/autonomy/bundle_updater.py.
use autonomous_vehicle_llm.Base.{
  String, Bool, true, false, ◌≡◌, refl, sym, ◌∙◌, ap, subst, Option, none, some, arith,
  if◌then◌else◌, string_eq, ok, raise, Result,
}
use autonomous_vehicle_llm.Base.Int.{ℤ, pos, leb_ℤ}
use autonomous_vehicle_llm.Base.Post.{Post}
use autonomous_vehicle_llm.Base.Kept.{Kept}
use autonomous_vehicle_llm.Float.{FloatOps}
use autonomous_vehicle_llm.Text.{TextOps}
use autonomous_vehicle_llm.Json.{
  Value, Fields, null, bool, int, float, str, arr, obj, end, get, put, get-put, has,
}
use autonomous_vehicle_llm.Values.{ValueOps, IntOf, parsed, int_at}
use autonomous_vehicle_llm.BundleUpdater.{
  JsonFile, holding, Updater, UpdaterOutside, load_state, state_of, with_environments,
  set_environment_state,
}
use autonomous_vehicle_llm.BundleUpdater.Apply.{Bundle, Applied, as_int, apply_bundle_file}
use autonomous_vehicle_llm.BundleUpdater.Checked.{
  Checked, CheckedFile, apply_bundle_file-CheckedFile,
}

abbrev returned : {S A : Type 0} → A → Result A × S → A
returned a (ok x, s) = x
returned a (raise e, s) = a

abbrev parsed_or : ℤ → Option ℤ → IntOf
parsed_or n none = parsed n
parsed_or n (some m) = parsed m

-- What the theorems use of `int`: a whole number, and a truth value, is its own.
pub record IsIntOf {F : Type 0} (vo : ValueOps F) : Type 0 where
  pub of_int : (n : ℤ) → vo.to_int (int n) ≡ parsed n
  pub of_true : vo.to_int (bool true) ≡ parsed (pos 1)
  pub of_false : vo.to_int (bool false) ≡ parsed (pos 0)

module _ {F : Type 0} ⦃vo : ValueOps F⦄ where
  -- A state whose last version is a number that is no less than `n`.
  pub record StateHas (n : ℤ) (d : Fields F) : Type 0 where
    pub value : Value F
    pub found : get "last_version" d ≡ some value
    pub number : ℤ
    pub parses : vo.to_int value ≡ parsed number
    pub bound : leb_ℤ n number ≡ true

  pub record HasVersion (n : ℤ) (s : Updater F) : Type 0 where
    pub state : Fields F
    pub stored : s.state_file ≡ holding (obj state)
    pub has_version : StateHas n state

  StateHas-put :
      (n : ℤ) (k : String) (v : Value F) (d : Fields F)
      → (k ≡ "environments")
      → StateHas n d
      → StateHas n (put k v d)
  StateHas-put n k v d e h = record {
    value = h.value;
    found = rw (get-put, e) h.found;
    number = h.number;
    parses = h.parses;
    bound = h.bound;
  }

  with_environments-StateHas :
      (n : ℤ) (d : Fields F) → StateHas n d → StateHas n (with_environments d)
  with_environments-StateHas n d h = at (has "environments" d)
    where
      at : (b : Bool) → StateHas n (if b then d else put "environments" (obj end) d)
      at true = h
      at false = StateHas-put n "environments" (obj end) d refl h

  pub set_environment_state-StateHas :
      (n : ℤ) (d : Fields F) (environment : String) (e : Fields F)
      → StateHas n d
      → StateHas n (set_environment_state d environment e)
  unfolding set_environment_state
  set_environment_state-StateHas n d environment e h = StateHas-put n "environments" _ d refl h

  pub loaded-StateHas :
      (n : ℤ) (s : Updater F) (d : Fields F)
      → HasVersion n s
      → load_state s ≡ (ok d, s)
      → StateHas n d
  unfolding load_state
  loaded-StateHas n s d h loaded =
      let same : with_environments h.state ≡ d =
        ap (returned d) (ap (λ f. state_of f s) (sym h.stored) ∙ loaded) in
      subst (StateHas n) same (with_environments-StateHas n h.state h.has_version)

  as_int-parses :
      IsIntOf vo
      → (o : Option (Value F)) (n : ℤ) → as_int o ≡ some n
      → (v : Value F) × (o ≡ some v) × (vo.to_int v ≡ parsed n)
  as_int-parses i none n h = absurd (ground (arith, h))
  as_int-parses i (some (int m)) n h = (int m, refl, i.of_int m ∙ ap (parsed_or n) h)
  as_int-parses i (some (bool true)) n h = (bool true, refl, i.of_true ∙ ap (parsed_or n) h)
  as_int-parses i (some (bool false)) n h = (bool false, refl, i.of_false ∙ ap (parsed_or n) h)
  as_int-parses i (some null) n h = absurd (ground (arith, h))
  as_int-parses i (some (float x)) n h = absurd (ground (arith, h))
  as_int-parses i (some (str t)) n h = absurd (ground (arith, h))
  as_int-parses i (some (arr vs)) n h = absurd (ground (arith, h))
  as_int-parses i (some (obj d)) n h = absurd (ground (arith, h))

  -- What `int` reads of the last version of such a state.
  pub int_at-StateHas :
      {S : Type 0} (n last : ℤ) (d : Fields F) (s : S)
      → StateHas n d
      → int_at "last_version" (pos 0) d s ≡ (ok last, s)
      → leb_ℤ n last ≡ true
  int_at-StateHas n last d s h e =
      let read : (ok h.number, s) ≡ (ok last, s) = rw (int_at, h.found, h.parses) refl ∙ e in
      subst (λ m. leb_ℤ n m ≡ true) (ap (returned last) read) h.bound

module _ {F K : Type 0} ⦃fl : FloatOps F⦄ ⦃tx : TextOps⦄ ⦃vo : ValueOps F⦄
    (out : UpdaterOutside F K) where
  -- An applied bundle leaves its own version behind.
  pub Installed-HasVersion :
      IsIntOf vo
      → (b : Bundle F) (s : Updater F) (r : Applied) (t : Updater F) (n : ℤ)
      → (c : Checked out b s r t) → leb_ℤ n c.version ≡ true
      → HasVersion n t
  Installed-HasVersion i b s r t n c le =
      let (v, found, parses) = as_int-parses i (get "version" b.metadata) c.version c.is_version in
      record {
        state = _;
        stored = c.installed.written;
        has_version = set_environment_state-StateHas n _ _ _ record {
          value = v;
          found = rw found refl;
          number = c.version;
          parses = parses;
          bound = le;
        };
      }

  pub apply-HasVersion :
      IsIntOf vo → (n : ℤ) (file : JsonFile F) → Kept (HasVersion n) (apply_bundle_file out file)
  apply-HasVersion i n file = record {
    at = λ s h. from s h (apply_bundle_file out file s) (apply_bundle_file-CheckedFile out file s);
  }
    where
      from :
          (s : Updater F)
          → HasVersion n s
          → (x : Result Applied × Updater F) → Post (CheckedFile out file s) (λ e t. t ≡ s) x
          → HasVersion n x.1
      from s h (ok r, t) c =
          let last =
            int_at-StateHas n c.checked.last c.checked.state s
              (loaded-StateHas n s c.checked.state h c.checked.loaded) c.checked.is_last in
          Installed-HasVersion i c.bundle s r t n c.checked (ground (arith, last, c.checked.newer))
      from s h (raise e, t) c = subst (HasVersion n) (sym c) h
