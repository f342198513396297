-- ===== src/Legacy/Sound.antt =====
-- src/companion/steam_reporting_status.cpp: what a local reader gets after any updates.
use rs2server_fix.Base.{
  ℕ, ◌%◌, ◌≤◌, ◌≡◌, refl, ap, ◌∙◌, Bool, true, false, not, ◌||◌, Option, none, some, List, [], ◌∷◌,
  ◌==◌, if◌then◌else◌, pick, taken, arith,
}
use rs2server_fix.Types.{Reason}
use rs2server_fix.Status.Wire.{StatusHeader, StatusPayload}
use rs2server_fix.Status.{may_publish}
use rs2server_fix.Legacy.{
  StatusWire, initialize_legacy, revoke_legacy, publish_legacy, lose_legacy, stop_legacy,
  legacy_revoked, legacy_header_valid, read_local_status,
}

pub data LegacyUpdate : Type 0 where
  initialize : StatusHeader → StatusPayload → LegacyUpdate
  publish : StatusPayload → LegacyUpdate
  revoke lose : Reason → LegacyUpdate
  stop : ℕ → LegacyUpdate

unfoldable pub legacy_update : LegacyUpdate → StatusWire → StatusWire
legacy_update (initialize h p) w = (initialize_legacy w h p).1
legacy_update (publish p) w = (publish_legacy w p).1
legacy_update (revoke r) w = revoke_legacy w r
legacy_update (lose r) w = lose_legacy w r
legacy_update (stop q) w = stop_legacy w q

unfoldable pub legacy_updates : List LegacyUpdate → StatusWire → StatusWire
unfolding legacy_update
legacy_updates [] w = w
legacy_updates (u ∷ us) w = legacy_updates us (legacy_update u w)

-- The payload of the last call that initialised or published, by what the calls returned.
unfoldable pub noted : Bool → StatusPayload → Option StatusPayload → Option StatusPayload
noted done p last = if done then some p else last

unfoldable pub last_published :
    List LegacyUpdate → StatusWire → Option StatusPayload → Option StatusPayload
unfolding noted legacy_update
last_published [] w last = last
last_published (initialize h p ∷ us) w last =
    last_published us (initialize_legacy w h p).1 (noted (initialize_legacy w h p).0 p last)
last_published (publish p ∷ us) w last =
    last_published us (publish_legacy w p).1 (noted (publish_legacy w p).0 p last)
last_published (revoke r ∷ us) w last = last_published us (revoke_legacy w r) last
last_published (lose r ∷ us) w last = last_published us (lose_legacy w r) last
last_published (stop q ∷ us) w last = last_published us (stop_legacy w q) last

record Readable (w : StatusWire) (p : StatusPayload) : Type 0 where
  ready : w.header_ready ≡ 1
  owner : w.owner ≡ p
  even : w.owner_sequence % 2 ≡ 0
  valid : legacy_header_valid w.header ≡ true

unfoldable Holds : StatusWire → Option StatusPayload → Type 0
Holds w none = w.header_ready ≡ 0
Holds w (some p) = Readable w p

abbrev Both : StatusPayload → Option StatusPayload → Bool × StatusWire → Type 0
Both p last r = Holds r.1 (noted r.0 p last)

initialize-Holds :
    (w : StatusWire) (h : StatusHeader) (p : StatusPayload) (last : Option StatusPayload)
    → Holds w last
    → Both p last (initialize_legacy w h p)
unfolding initialize_legacy Holds noted legacy_header_valid
initialize-Holds w h p last k =
    pick (Both p last) (not (w.header_ready == 0)) _ _ (λ _. k)
      λ _. record { ready = refl; owner = refl; even = refl; valid = refl }

publishable : (q : ℕ) → not (may_publish q) ≡ false → q % 2 ≡ 0
unfolding may_publish
publishable q h = ground arith

publish-Holds :
    (w : StatusWire) (p : StatusPayload) (last : Option StatusPayload)
    → Holds w last
    → Both p last (publish_legacy w p)
unfolding publish_legacy Holds noted
publish-Holds w p none k =
    pick (Both p none) (not (w.header_ready == 1)) _ _ (λ _. k)
      λ e. absurd (let z : 1 ≤ 0 = ground (arith, k) in omega (arith, z))
publish-Holds w p (some q) k =
    pick (Both p (some q)) (not (w.header_ready == 1)) _ _ (λ _. k)
      λ _.
        pick (Both p (some q)) (not (may_publish w.owner_sequence)) _ _
          (λ _. record { ready = k.ready; owner = k.owner; even = k.even; valid = k.valid })
          λ e.
            let even = publishable w.owner_sequence e in
            record { ready = k.ready; owner = refl; even = omega (arith, even); valid = k.valid }

latched-Holds :
    (w : StatusWire) (v : StatusWire) (last : Option StatusPayload)
    → v.header ≡ w.header
    → v.header_ready ≡ w.header_ready
    → v.owner ≡ w.owner
    → v.owner_sequence ≡ w.owner_sequence
    → Holds w last
    → Holds v last
unfolding Holds
latched-Holds w v none e1 e2 e3 e4 k = e2 ∙ k
latched-Holds w v (some p) e1 e2 e3 e4 k =
    let even = k.even in
    record {
      ready = e2 ∙ k.ready;
      owner = e3 ∙ k.owner;
      even = ap (λ n. n % 2) e4 ∙ even;
      valid = ap legacy_header_valid e1 ∙ k.valid;
    }

stopped-Holds :
    (w : StatusWire) (q : ℕ) (last : Option StatusPayload)
    → Holds w last
    → Holds (stop_legacy w q) last
unfolding stop_legacy
stopped-Holds w q last k =
    pick (λ v. Holds v last) (w.stopping == 0) _ _
      (λ _. latched-Holds w _ last refl refl refl refl k) (λ _. k)

updates-Holds :
    (us : List LegacyUpdate) (w : StatusWire) (last : Option StatusPayload)
    → Holds w last
    → Holds (legacy_updates us w) (last_published us w last)
unfolding legacy_updates last_published revoke_legacy lose_legacy
updates-Holds [] w last k = k
updates-Holds (initialize h p ∷ us) w last k = updates-Holds us _ _ (initialize-Holds w h p last k)
updates-Holds (publish p ∷ us) w last k = updates-Holds us _ _ (publish-Holds w p last k)
updates-Holds (revoke r ∷ us) w last k =
    updates-Holds us _ last (latched-Holds w _ last refl refl refl refl k)
updates-Holds (lose r ∷ us) w last k =
    updates-Holds us _ last (latched-Holds w _ last refl refl refl refl k)
updates-Holds (stop q ∷ us) w last k = updates-Holds us _ last (stopped-Holds w q last k)

-- What a local reader should be given.
unfoldable pub shown :
    Bool → StatusHeader → Option StatusPayload → Option (StatusHeader × StatusPayload)
shown true h last = none
shown false h none = none
shown false h (some p) = some (h, p)

read-shown :
    (w : StatusWire) (last : Option StatusPayload) (b : Bool)
    → legacy_revoked w ≡ b
    → Holds w last
    → read_local_status w ≡ shown b w.header last
unfolding read_local_status shown Holds
read-shown w last true e k = rw e (taken _ _ _ (shut (w.header_ready == 1)))
  where
    shut : (a : Bool) → (not a || true) ≡ true
    shut true = refl
    shut false = refl
read-shown w none false e k = rw (e, k) refl
read-shown w (some p) false e k =
    let ready = k.ready in
    let even = k.even in
    let valid = k.valid in let owner = k.owner in rw (e, ready, even, valid, owner) refl

-- After any updates of a zeroed block a local reader gets the header and the payload of the last call
-- that initialised or published it, and nothing while there is none or the block is revoked.
pub read_local_status-shown :
    (w : StatusWire) (us : List LegacyUpdate)
    → w.header_ready ≡ 0
    → read_local_status (legacy_updates us w)
      ≡ shown
          (legacy_revoked (legacy_updates us w))
          (legacy_updates us w).header
          (last_published us w none)
unfolding Holds
read_local_status-shown w us fresh =
    read-shown (legacy_updates us w) (last_published us w none) _ refl
      (updates-Holds us w none fresh)
