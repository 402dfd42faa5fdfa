-- ===== src/Quota/Kept.antt =====
-- What the pods of a project ask for stays within its limits, if each creation is counted.
use projectresourcequota.Prelude.{
  ℕ, ◌+◌, ◌≤◌, String, ◌≡◌, refl, sym, ap, subst, ◌∙◌, true, false, contains, All, All-both,
  Bool-cases, inl, inr, if◌then◌else◌, arith,
}
use projectresourcequota.Prelude.Int.{ℤ, pos, ◌+ℤ◌, ◌≤ℤ◌, int_laws}
use projectresourcequota.Dict.{has}
use projectresourcequota.Quantity.{Quantity}
use projectresourcequota.Api.{Kind, Object, Body, Pod, ProjectResourceQuota, is_deleting}
use projectresourcequota.Api.Result.{ok}
use projectresourcequota.Api.Client.{Reader}
use projectresourcequota.Webhook.Counting.{at}
use projectresourcequota.Webhook.Counting.Limit.{hard_amount, used_amount}
use projectresourcequota.Webhook.Pod.{PodResources}
use projectresourcequota.Controller.Cluster.{Client}
use projectresourcequota.Controller.Cluster.Laws.{IsStore, kind_cases}
use projectresourcequota.Controller.Strip.{StringSets}
use projectresourcequota.Controller.Usage.Sums.{amount_at-not_has}
use projectresourcequota.Controller.Usage.Counts.{row_total}
use projectresourcequota.Controller.Usage.Rows.{RowCounted}
use projectresourcequota.Controller.Reconcile.{reconcile}
use projectresourcequota.Controller.Reconcile.Settled.{IsStatusStore}
use projectresourcequota.Quota.Admitted.{IsAdmitted, admitted-PodFits}
use projectresourcequota.Quota.Sums.{AllDistinct, Rises}
use projectresourcequota.Quota.Asked.{
  asked_in-Rises, asked_in-same, row_total-limited, row_total-unlimited,
}
use projectresourcequota.Quota.Tally.{IsOneMore}
use projectresourcequota.Quota.Recounted.{recounted}
use projectresourcequota.Quota.History.{IsReading, History}
use projectresourcequota.Quota.Compute.{
  sum_of, IsRecordedWithin, Compute, row_of, compute, IsPositive, IsCompute, compute-IsCompute,
}

added : (t t' m u h : ℤ) → t' ≤ℤ t +ℤ m → t ≤ℤ u → m +ℤ u ≤ℤ h → t' ≤ℤ h
added t t' m u h rise recorded room = omega (int_laws, rise, recorded, room)

module _ {Q B S N : Type 0} ⦃q : Quantity Q⦄ (helper : PodResources Q B) (sets : StringSets N)
    (client : Client Q B S) (store : IsStore client) (status : IsStatusStore client)
    (projects : S → Reader Q) (prq : ProjectResourceQuota Q)
    (reading : IsReading client projects prq.meta.name) (limited : has "pods" prq.spec.hard ≡ true)
    (distinct : AllDistinct prq.spec.namespaces) where
  module _ (c : Compute B) (computed : IsCompute helper c) where
    -- Unless a creation waits to be counted, the status records what the pods ask for.
    record IsKept (n : ℕ) (s : S) : Type 0 where
      current : ProjectResourceQuota Q
      got : client.get prq.meta.name s ≡ ok current
      same_spec : current.spec ≡ prq.spec
      live : is_deleting current ≡ false
      recorded : n ≤ 0 → sum_of client prq s c ≤ℤ used_amount c.name current
      kept : sum_of client prq s c ≤ℤ hard_amount c.name prq

    fewer :
        (n : ℕ) (s s' : S)
        → client.get prq.meta.name s' ≡ client.get prq.meta.name s
        → sum_of client prq s' c ≤ℤ sum_of client prq s c
        → IsKept n s
        → IsKept n s'
    fewer n s s' same less b = record {
      current = b.current;
      got = same ∙ b.got;
      same_spec = b.same_spec;
      live = b.live;
      recorded = λ none. omega (int_laws, less, b.recorded none);
      kept = omega (int_laws, less, b.kept);
    }

    later : (n : ℕ) (s : S) → IsKept n s → IsKept (n + 1) s
    later n s b = record {
      current = b.current;
      got = b.got;
      same_spec = b.same_spec;
      live = b.live;
      recorded = λ none. absurd (omega (arith, none));
      kept = b.kept;
    }

    level :
        (s s' : S)
        → ((ns : String)
            → contains ns prq.spec.namespaces ≡ true
            → client.list Kind.pod ns s' ≡ client.list Kind.pod ns s)
        → sum_of client prq s' c ≤ℤ sum_of client prq s c
    level s s' same = rw (asked_in-same client c s s' prq.spec.namespaces same) (omega arith)

    rise :
        (pod : Pod B) (s s' : S)
        → IsOneMore client Kind.pod pod s s'
        → Rises
            (sum_of client prq s c)
            (sum_of client prq s' c)
            (if contains pod.meta.namespace prq.spec.namespaces then c.measure pod else pos 0)
    rise pod s s' more =
        asked_in-Rises client c s s' more.before pod more.after pod.meta.namespace more.without_it
          more.with_it (computed.positive pod) (λ ns away. more.elsewhere Kind.pod ns (inr away))
          prq.spec.namespaces distinct

    room :
        (n : ℕ) (s : S) (b : IsKept n s) (pod pod' : Pod B)
        → IsAdmitted helper (projects s) Kind.pod pod pod'
        → contains pod'.meta.namespace prq.spec.namespaces ≡ true
        → c.measure pod' +ℤ used_amount c.name b.current ≤ℤ hard_amount c.name prq
    room n s b pod pod' admitted inside =
        let (before, after, read, apart) = reading.listed s b.current b.got in
        let same_name = reading.named s b.current b.got in
        subst
          (λ spec. c.measure pod' +ℤ used_amount c.name b.current ≤ℤ q.amount (at spec.hard c.name))
          b.same_spec
          (computed.fits b.current pod' (
            admitted-PodFits helper (projects s) before b.current after read apart
              (ap (projects s).get same_name ∙ reading.read s b.current b.got) pod pod' admitted
              b.live (ap (λ spec. has "pods" spec.hard) b.same_spec ∙ limited)
              (ap (λ spec. contains pod'.meta.namespace spec.namespaces) b.same_spec ∙ inside)))

    created-IsKept :
        (n : ℕ) (s s' : S) (pod pod' : Pod B)
        → n ≤ 0
        → IsAdmitted helper (projects s) Kind.pod pod pod'
        → IsOneMore client Kind.pod pod' s s'
        → IsKept n s
        → IsKept (n + 1) s'
    created-IsKept n s s' pod pod' none admitted more b =
        let up = (rise pod' s s' more).1 in
        elim (Bool-cases (contains pod'.meta.namespace prq.spec.namespaces)) [
          | inr outside ↦ later n s' (
              fewer n s s' (more.projects prq.meta.name)
                (let same = rw outside at up in omega (int_laws, same)) b)
          | inl inside ↦
              let up' = rw inside at up in
              let below = room n s b pod pod' admitted inside in
              record {
                current = b.current;
                got = more.projects prq.meta.name ∙ b.got;
                same_spec = b.same_spec;
                live = b.live;
                recorded = λ again. absurd (omega (arith, again));
                kept = added _ _ _ _ _ up' (b.recorded none) below;
              }
        ]

    other_created-IsKept :
        (n : ℕ) (s s' : S) (other : Kind) (obj obj' : Object (Body B other))
        → n ≤ 0
        → IsAdmitted helper (projects s) other obj obj'
        → IsOneMore client other obj' s s'
        → IsKept n s
        → IsKept (n + 1) s'
    other_created-IsKept n s s' other obj obj' none admitted more b =
        elim (kind_cases Kind.pod other) [
          | inl same ↦
              subst
                (λ x.
                  (o o' : Object (Body B x))
                  → IsAdmitted helper (projects s) x o o'
                  → IsOneMore client x o' s s'
                  → IsKept (n + 1) s')
                same (λ o o' passed one_more. created-IsKept n s s' o o' none passed one_more b) obj
                obj' admitted more
          | inr differ ↦ later n s' (
              fewer n s s' (more.projects prq.meta.name)
                (level s s' (λ ns inside. more.elsewhere Kind.pod ns (inl (λ e. differ (sym e)))))
                b)
        ]

    deleted-IsKept :
        (n : ℕ) (s s' : S) (other : Kind) (obj : Object (Body B other))
        → IsOneMore client other obj s' s
        → IsKept n s
        → IsKept n s'
    deleted-IsKept n s s' other obj more b =
        fewer n s s' (sym (more.projects prq.meta.name))
          (elim (kind_cases Kind.pod other) [
            | inl same ↦
                subst
                  (λ x.
                    (o : Object (Body B x))
                    → IsOneMore client x o s' s
                    → sum_of client prq s' c ≤ℤ sum_of client prq s c)
                  same (λ o one_more. (rise o s' s one_more).0) obj more
            | inr differ ↦
                level s s'
                  (λ ns inside. sym (more.elsewhere Kind.pod ns (inl (λ e. differ (sym e)))))
          ])
          b

    -- What a reconciliation records of a resource is not less than what the pods ask for: where the
    -- project does not limit it they ask for nothing.
    recount-Kept :
        (s s' : S) (recorded : ℤ)
        → sum_of client prq s' c ≤ℤ sum_of client prq s c
        → sum_of client prq s c ≤ℤ hard_amount c.name prq
        → recorded ≡ row_total helper client prq.spec.hard s (row_of c) prq.spec.namespaces
        → sum_of client prq s' c ≤ℤ recorded
    recount-Kept s s' recorded same within counted = elim (Bool-cases (has c.name prq.spec.hard)) [
      | inl named ↦
          rw
            (
              counted,
              row_total-limited helper client c prq.spec.hard s limited named prq.spec.namespaces,
            )
            same
      | inr free ↦
          let zero : hard_amount c.name prq ≡ pos 0 = amount_at-not_has c.name prq.spec.hard free in
          let within' = rw zero at within in
          rw
            (
              counted,
              row_total-unlimited helper client c prq.spec.hard s limited free prq.spec.namespaces,
            )
            (omega (int_laws, same, within'))
    ]

    reconciled-IsKept :
        (n : ℕ) (s s' : S)
        → reconcile helper sets client prq.meta.name s ≡ (ok tt, s')
        → IsKept n s
        → IsKept 0 s'
    reconciled-IsKept n s s' done b =
        let same_name = reading.named s b.current b.got in
        let after =
          recounted helper sets client store status b.current s s'
            (ap (λ x. client.get x s) same_name ∙ b.got) b.live
            (ap (λ x. reconcile helper sets client x s) same_name ∙ done) in
        let counted =
          computed.counted
            (RowCounted helper client b.current.spec.hard s after.used b.current.spec.namespaces)
            after.counted
          ∙ ap (λ spec. row_total helper client spec.hard s (row_of c) spec.namespaces)
              b.same_spec in
        let same = level s s' (λ ns inside. after.lists Kind.pod ns (rw b.same_spec inside)) in
        record {
          current = _;
          got = ap (λ x. client.get x s') (sym same_name) ∙ after.got;
          same_spec = b.same_spec;
          live = b.live;
          recorded = λ none. recount-Kept s s' _ same b.kept counted;
          kept = omega (int_laws, same, b.kept);
        }

    history-IsKept :
        (start : S) {n : ℕ} {s : S}
        → History helper sets client projects prq.meta.name prq.spec.namespaces 0 start n s
        → IsKept 0 start
        → IsKept n s
    history-IsKept start History.started b = b
    history-IsKept start (History.created {n} {s} {s'} h none other obj obj' admitted more) b =
        other_created-IsKept n s s' other obj obj' none admitted more (history-IsKept start h b)
    history-IsKept start (History.deleted {n} {s} {s'} h other obj more) b =
        deleted-IsKept n s s' other obj more (history-IsKept start h b)
    history-IsKept start (History.elsewhere {n} {s} {s'} h kept same) b =
        fewer n s s' kept (level s s' (same Kind.pod)) (history-IsKept start h b)
    history-IsKept start (History.reconciled {n} {s} {s'} h done) b =
        reconciled-IsKept n s s' done (history-IsKept start h b)

  -- Take a project that is not being deleted, limits the count of pods and lists no namespace twice,
  -- pods that ask for no negative amount, and a state in which, for each of the eleven compute
  -- resources, limited or not, what the annotated pods in its namespaces that have neither failed nor
  -- succeeded ask for is within the limit (zero if it has none) and not more than the status records. With webhooks that read the stored project, a client
  -- that stores what it is given, and projects that share no namespace: after any creations that the
  -- webhooks let pass, each counted by a reconciliation before the next, deletions and changes
  -- elsewhere, what these pods ask for is within the limit of each compute resource, and so is zero
  -- for one that the project does not limit.
  pub compute_bound :
      (positive : IsPositive helper) (start : S) {n : ℕ} {s : S}
      → client.get prq.meta.name start ≡ ok prq
      → is_deleting prq ≡ false
      → All (IsRecordedWithin client prq start) (compute helper)
      → History helper sets client projects prq.meta.name prq.spec.namespaces 0 start n s
      → All (λ c. sum_of client prq s c ≤ℤ hard_amount c.name prq) (compute helper)
  compute_bound positive start {n} {s} got live within history =
      All-both (IsCompute helper) (IsRecordedWithin client prq start)
        (λ c. sum_of client prq s c ≤ℤ hard_amount c.name prq)
        (λ c computed first.
          (history-IsKept c computed start history (record {
            current = prq;
            got = got;
            same_spec = refl;
            live = live;
            recorded = λ none. first.0;
            kept = first.1;
          })).kept)
        (compute helper) (compute-IsCompute helper positive) within
