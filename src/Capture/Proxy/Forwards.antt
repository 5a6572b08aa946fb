-- ===== src/Capture/Proxy/Forwards.antt =====
-- internal/capture/proxy.go: how a step of one loop changes what it forwarded and the events.
use mathlib.Core.List.{Perm, perm_middle}
use mathlib.Core.List.Perm
use tenantguard.Base.{
  List, [], ap, append-nil, append_assoc, false, inl, inr, refl, subst, sym, ◌++◌, ◌∙◌, ◌∷◌, ◌≡◌,
  ◌≢◌, ◌⊎◌,
}
use tenantguard.Base.Bytes.{Bytes}
use tenantguard.Capture.Proxy.{IsReady, Loop, cut_off, ended, fed_with, forwarded}
use tenantguard.Capture.Session.{Event}

-- A loop, of whose bytes `fed` were fed to the session: it wrote all that it read, in order, and the
-- session lacks at most what waits to be fed; or a write was cut off, which ended it.
abbrev pub Forwards : Bytes → Loop → Type 0
Forwards fed l =
    ((fed ++ l.unfed ≡ l.wrote) × (l.wrote ≡ l.read))
    ⊎ ((l.runs ≡ false)
        × (l.unfed ≡ [])
        × (part : Bytes) × (lost : Bytes) × (fed ++ part ≡ l.wrote)
        × (l.wrote ++ lost ≡ l.read))

pub forwarded-Forwards :
    (fed b : Bytes) (l : Loop) → IsReady l → Forwards fed l → Forwards fed (forwarded b l)
forwarded-Forwards fed b l (runs, none_unfed, none_waits) (inl (w, e)) = inl (
  ap (λ x. x ++ b) (sym (append-nil fed) ∙ ap (λ x. fed ++ x) (sym none_unfed) ∙ w),
  ap (λ x. x ++ b) e,
)
forwarded-Forwards fed b l (runs, none_unfed, none_waits) (inr (stopped, _, _, _, _, _)) = cc

pub cut_off-Forwards :
    (fed part lost : Bytes) (l : Loop)
    → IsReady l
    → Forwards fed l
    → Forwards fed (cut_off part lost l)
cut_off-Forwards fed part lost l (runs, none_unfed, none_waits) (inl (w, e)) = inr (
  refl,
  none_unfed,
  part,
  lost,
  ap (λ x. x ++ part) (sym (append-nil fed) ∙ ap (λ x. fed ++ x) (sym none_unfed) ∙ w),
  append_assoc l.wrote part lost ∙ ap (λ x. x ++ (part ++ lost)) e,
)
cut_off-Forwards fed part lost l (runs, none_unfed, none_waits) (inr (stopped, _, _, _, _, _)) = cc

pub ended-Forwards : (fed : Bytes) (l : Loop) → IsReady l → Forwards fed l → Forwards fed (ended l)
ended-Forwards fed l ready (inl kept) = inl kept
ended-Forwards fed l (runs, _, _) (inr (stopped, _, _, _, _, _)) = cc

pub fed_with-Forwards :
    (fed : Bytes) (es : List Event) (l : Loop)
    → l.unfed ≢ []
    → Forwards fed l
    → Forwards (fed ++ l.unfed) (fed_with es l)
fed_with-Forwards fed es l n (inl (w, e)) = inl (append-nil (fed ++ l.unfed) ∙ w, e)
fed_with-Forwards fed es l n (inr (_, empty_now, _, _, _, _)) = absurd (n empty_now)

append-comm : (es ss : List Event) → Perm (es ++ ss) (ss ++ es)
append-comm [] ss = subst (Perm ss) (sym (append-nil ss)) (Perm.refl ss)
append-comm (e ∷ es) ss =
    Perm.trans (Perm.cons e (append-comm es ss)) (Perm.symm (perm_middle ss es))

-- The events behind a step, of those before it, of the client's loop or of the server's.
pub client_feeds-events :
    (sink es ss all : List Event)
    → Perm (sink ++ ([] ++ ss)) all
    → Perm (sink ++ (es ++ ss)) (all ++ es)
client_feeds-events sink es ss all p =
    Perm.trans (Perm.append_left sink (append-comm es ss))
      (subst (λ x. Perm x (all ++ es)) (append_assoc sink ss es) (Perm.append_right es p))

pub server_feeds-events :
    (sink cs es all : List Event)
    → Perm (sink ++ (cs ++ [])) all
    → Perm (sink ++ (cs ++ es)) (all ++ es)
server_feeds-events sink cs es all p =
    subst (λ x. Perm x (all ++ es))
      (ap (λ x. (sink ++ x) ++ es) (append-nil cs) ∙ append_assoc sink cs es)
      (Perm.append_right es p)

pub client_emits-events :
    (sink : List Event) (e : Event) (es ss all : List Event)
    → Perm (sink ++ ((e ∷ es) ++ ss)) all
    → Perm ((sink ++ (e ∷ [])) ++ (es ++ ss)) all
client_emits-events sink e es ss all p =
    subst (λ x. Perm x all) (sym (append_assoc sink (e ∷ []) (es ++ ss))) p

pub server_emits-events :
    (sink : List Event) (e : Event) (cs es all : List Event)
    → Perm (sink ++ (cs ++ (e ∷ es))) all
    → Perm ((sink ++ (e ∷ [])) ++ (cs ++ es)) all
server_emits-events sink e cs es all p =
    subst (λ x. Perm x all) (sym (append_assoc sink (e ∷ []) (cs ++ es)))
      (Perm.trans (Perm.append_left sink (Perm.symm (perm_middle cs es))) p)
