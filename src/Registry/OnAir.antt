-- ===== src/Registry/OnAir.antt =====
-- Who can be heard in the booths of the portal: portal/booth_state.py.
use voxbento.Prelude.{◌≡◌, true, some, List, [], Text, get, All-get, ok}
use voxbento.Booth.{Participant, Booth}
use voxbento.Booth.Calls.{check_publish_permission}
use voxbento.Booth.Valid.{IsValid, is_on_air}
use voxbento.Booth.Safety.{on_air_active, check_publish_permission_iff}
use voxbento.Registry.Methods.{MethodCall, calls, AllRoleMethods}
use voxbento.Registry.Histories.{calls-AllValid}

-- After every sequence of method calls on the empty registry, as long as who joins has a role that can
-- go live, at most one participant of a booth has a live microphone or stream: two that are on air
-- are the same, and it is one who may publish.
pub on_air_unique :
    (lower : Text → Text) (cs : List MethodCall) (id : Text) (b : Booth)
    → AllRoleMethods cs
    → get id (calls lower cs []) ≡ some b
    → (k j : Text) (p q : Participant) → get k b.participants ≡ some p
    → get j b.participants ≡ some q
    → is_on_air p ≡ true
    → is_on_air q ≡ true
    → (k ≡ j) × (check_publish_permission k b ≡ ok tt)
on_air_unique lower cs id b w g k j p q gp gq ap aq =
    let v = All-get (λ i x. IsValid x) id (calls lower cs []) (calls-AllValid lower cs [] w tt) g in
    let hp = on_air_active b v k p gp ap in
    let hq = on_air_active b v j q gq aq in (cc, (check_publish_permission_iff k b v).1 hp)
