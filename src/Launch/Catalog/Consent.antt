-- ===== src/Launch/Catalog/Consent.antt =====
-- What a launch request that is accepted says: its risk is the confirmed one, it is on offer, and it
-- can be made again from its stored form.
use agent_host.Common.{
  ◌≡◌, refl, sym, ap, ◌∙◌, Bool, true, false, ◌&&◌, not, some, List, [], ◌∷◌, arith, ◌=?◌, eq_iff,
  if-cases, any, find, Option-cases, inl, inr,
}
use mathlib.Core.Path.{subst}
use agent_host.Common.Json.{Value, Fields, object, string, boolean, member}
use agent_host.Common.Results.{Result, ok, Result-cases}
use agent_host.Launch.Contracts.{Request, Risk}
use agent_host.Launch.Catalog.Payload.{read_draft-Writes, ok_inj}
use agent_host.Launch.Catalog.{
  Mode, Target, Provider, Draft, RequestError, ◌=b◌, select, choose_target, choose_provider,
  read_draft, normalize_launch_request, capabilities_for,
}

-- Whether the catalog offers a request, said without the order of the search.
unfoldable pub offers_mode : Request → Mode → Bool
offers_mode r m =
    (m.id =? r.mode)
    && m.enabled
    && (m.risk.local_mutation =b r.risk.local_mutation)
    && (m.risk.external_billable =b r.risk.external_billable)

unfoldable pub offers_target : Request → Target → Bool
unfolding offers_mode
offers_target r t =
    (t.id =? r.target) && any (λ s. s =? r.profile) t.profiles && any (offers_mode r) t.modes

unfoldable pub offers : Request → List Provider → Bool
unfolding offers_target
offers r providers =
    any
      (λ p.
        (p.provider =? r.provider)
        && (p.capability_version =? r.capability_version)
        && any (offers_target r) p.targets)
      providers

-- A payload that asks for a request and acknowledges its risk, member by member.
abbrev pub Confirms : Value → Request → Type 0
Confirms payload r =
    (fields : Fields) × (given : Fields) × (payload ≡ object fields)
    × (member "provider" fields ≡ some (string r.provider))
    × (member "target" fields ≡ some (string r.target))
    × (member "profile" fields ≡ some (string r.profile))
    × (member "mode" fields ≡ some (string r.mode))
    × (member "confirmations" fields ≡ some (object given))
    × (member "localMutation" given ≡ some (boolean r.risk.local_mutation))
    × (member "externalBillable" given ≡ some (boolean r.risk.external_billable))

-- A request says what its draft says.
record IsOf (d : Draft) (r : Request) : Type 0 where
  pub provider : r.provider ≡ d.provider
  pub target : r.target ≡ d.target
  pub profile : r.profile ≡ d.profile
  pub mode : r.mode ≡ d.mode
  pub risk : r.risk ≡ d.confirmations

find_holds : {A : Type 0} (p : A → Bool) (x : A) (xs : List A) → find p xs ≡ some x → p x ≡ true
find_holds p x [] e = absurd (cc)
find_holds p x (y ∷ ys) e = ground (arith, find_holds p x ys)

find-any :
    {A : Type 0} (p q : A → Bool) (x : A) (xs : List A)
    → find p xs ≡ some x
    → q x ≡ true
    → any q xs ≡ true
find-any p q x [] e f = absurd (cc)
find-any p q x (y ∷ ys) e f = ground (arith, find-any p q x ys)

same_bool : (a b : Bool) → (a =b b) ≡ true → a ≡ b
same_bool true b e = sym e
same_bool false b e = ground arith

bool_refl : (a : Bool) → (a =b a) ≡ true
bool_refl true = refl
bool_refl false = refl

same_risk :
    (a b : Risk)
    → ((a.local_mutation =b b.local_mutation) && (a.external_billable =b b.external_billable))
      ≡ true
    → b ≡ a
same_risk a b e =
    let x = same_bool (a.local_mutation) (b.local_mutation) (ground arith) in
    let y = same_bool (a.external_billable) (b.external_billable) (ground arith) in
    sym (
      ap {B = Risk} (λ z. record { local_mutation = z; external_billable = a.external_billable }) x
      ∙ ap {B = Risk} (λ z. record { local_mutation = b.local_mutation; external_billable = z }) y)

-- What the search found for a request.
record IsSelected (d : Draft) (p : Provider) (t : Target) (m : Mode) (r : Request) : Type 0 where
  says : IsOf d r
  provides : p.provider ≡ r.provider
  version : p.capability_version ≡ r.capability_version
  target : t.id ≡ r.target
  profile : any (λ s. s =? r.profile) t.profiles ≡ true
  mode : offers_mode r m ≡ true

select-IsSelected :
    (d : Draft) (p : Provider) (t : Target) (m : Mode) (r : Request)
    → (p.provider =? d.provider) ≡ true
    → (t.id =? d.target) ≡ true
    → ((m.id =? d.mode) && m.enabled) ≡ true
    → select d p t (some m) ≡ ok r
    → IsSelected d p t m r
unfolding select offers_mode
select-IsSelected d p t m r fp ft fm =
    let Selects = λ (x : Result RequestError Request). x ≡ ok r → IsSelected d p t m r in
    if-cases Selects (not (any (λ s. s =? d.profile) t.profiles)) _ _ (λ _ e. absurd (cc))
      λ has.
        if-cases Selects
          ((d.confirmations.local_mutation =b m.risk.local_mutation)
            && (d.confirmations.external_billable =b m.risk.external_billable))
          _ _
          (λ same e. subst (IsSelected d p t m) (ok_inj e) record {
            says = record {
              provider = (eq_iff _ _).0 fp;
              target = (eq_iff _ _).0 ft;
              profile = refl;
              mode = (eq_iff _ _).0 (ground arith);
              risk = same_risk d.confirmations m.risk same;
            };
            provides = refl;
            version = refl;
            target = refl;
            profile = ground arith;
            mode = ground (
              arith,
              eq_iff m.id m.id,
              bool_refl (m.risk.local_mutation),
              bool_refl (m.risk.external_billable),
            );
          })
          λ _ e. absurd (cc)

-- A request that was chosen from the catalog.
record IsChosen (d : Draft) (providers : List Provider) (r : Request) : Type 0 where
  says : IsOf d r
  offered : offers r providers ≡ true

choose-IsChosen :
    (d : Draft) (providers : List Provider) (r : Request)
    → choose_provider d (find (λ p. p.provider =? d.provider) providers) ≡ ok r
    → IsChosen d providers r
unfolding choose_provider choose_target select offers offers_target
choose-IsChosen d providers r e =
    elim (Option-cases (find (λ p. p.provider =? d.provider) providers)) [
      | inl f ↦ absurd (let bad = rw f at e in cc)
      | inr (p, f) ↦ elim (Option-cases (find (λ t. t.id =? d.target) p.targets)) [
        | inl g ↦ absurd (let bad = rw (f, g) at e in cc)
        | inr (t, g) ↦ elim (Option-cases (find (λ m. (m.id =? d.mode) && m.enabled) t.modes)) [
          | inl k ↦ absurd (let bad = rw (f, g, k) at e in cc)
          | inr (m, k) ↦
              let s =
                select-IsSelected d p t m r (find_holds _ p providers f)
                  (find_holds _ t p.targets g) (find_holds _ m t.modes k) (rw (f, g, k) at e) in
              let mode = find-any _ (offers_mode r) m t.modes k s.mode in
              let target =
                find-any _ (offers_target r) t p.targets g
                  (ground (arith, s.target, s.profile, mode, eq_iff t.id r.target)) in
              record {
                says = s.says;
                offered = find-any _ _ p providers f (
                    ground (
                      arith,
                      s.provides,
                      s.version,
                      target,
                      eq_iff p.provider r.provider,
                      eq_iff p.capability_version r.capability_version,
                    ));
              }
        ]
      ]
    ]

-- A draft chooses the request that it says from that request's own catalog.
choose_again :
    (d : Draft) (r : Request)
    → IsOf d r
    → choose_provider d (find (λ p. p.provider =? d.provider) (capabilities_for r)) ≡ ok r
unfolding choose_provider choose_target select capabilities_for
choose_again d r s =
    rw
      (
        sym s.provider,
        sym s.target,
        sym s.mode,
        sym s.profile,
        sym s.risk,
        (eq_iff r.provider r.provider).1 refl,
        (eq_iff r.target r.target).1 refl,
        (eq_iff r.mode r.mode).1 refl,
        (eq_iff r.profile r.profile).1 refl,
        bool_refl (r.risk.local_mutation),
        bool_refl (r.risk.external_billable),
      )
      refl

-- Whatever the adapters offer, the payload of an accepted request is an object with the request's
-- provider, target, profile and mode, whose confirmations say of localMutation and of externalBillable
-- what the request's risk says; and the catalog offers the request: an enabled mode with that very
-- risk, in a target that has the profile.
pub normalize_launch_request-Confirms :
    (payload : Value) (providers : List Provider) (r : Request)
    → normalize_launch_request payload providers ≡ ok r
    → Confirms payload r × (offers r providers ≡ true)
unfolding normalize_launch_request
normalize_launch_request-Confirms payload providers r e = elim (Result-cases (read_draft payload)) [
  | inl (d, form) ↦
      let c = choose-IsChosen d providers r (rw form at e) in
      let w = read_draft-Writes payload d form in
      let says = c.says in
      (rw (says.provider, says.target, says.profile, says.mode, says.risk) w, c.offered)
  | inr (x, form) ↦ absurd (let bad = rw form at e in cc)
]

-- A payload that was accepted is accepted again, as the same request, by the catalog that stands for
-- the stored request: a replay does not depend on what the adapters offer by then.
pub normalize_launch_request-capabilities_for :
    (payload : Value) (providers : List Provider) (r : Request)
    → normalize_launch_request payload providers ≡ ok r
    → normalize_launch_request payload (capabilities_for r) ≡ ok r
unfolding normalize_launch_request
normalize_launch_request-capabilities_for payload providers r e =
    elim (Result-cases (read_draft payload)) [
      | inl (d, form) ↦
          let c = choose-IsChosen d providers r (rw form at e) in rw form (choose_again d r c.says)
      | inr (x, form) ↦ absurd (let bad = rw form at e in cc)
    ]
