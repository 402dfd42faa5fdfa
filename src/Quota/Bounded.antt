-- ===== src/Quota/Bounded.antt =====
-- How far the number of a project's objects may pass its limit, after any history.
use projectresourcequota.Prelude.{
  ℕ, ◌+◌, ◌*◌, ◌≤◌, String, ◌≡◌, refl, sym, ap, subst, ◌∙◌, true, false, contains, Bool-cases, inl,
  inr, arith,
}
use projectresourcequota.Prelude.Int.{ℤ, pos, ◌+ℤ◌, ◌≤ℤ◌, ◌<ℤ◌, int_laws}
use projectresourcequota.Dict.{has}
use projectresourcequota.Quantity.{Quantity, nano}
use projectresourcequota.Api.{Kind, Object, Body, ProjectResourceQuota, is_deleting}
use projectresourcequota.Api.Result.{ok}
use projectresourcequota.Api.Client.{Reader}
use projectresourcequota.Webhook.Counting.{at}
use projectresourcequota.Webhook.Counting.Limit.{hard_amount, used_amount}
use projectresourcequota.Webhook.Pod.{PodResources}
use projectresourcequota.Controller.Cluster.{Client}
use projectresourcequota.Controller.Cluster.Laws.{IsStore, kind_cases}
use projectresourcequota.Controller.Strip.{StringSets}
use projectresourcequota.Controller.Usage.Sums.{one}
use projectresourcequota.Controller.Usage.Counts.{gate}
use projectresourcequota.Controller.Reconcile.{reconcile}
use projectresourcequota.Controller.Reconcile.Settled.{IsStatusStore}
use projectresourcequota.Quota.Admitted.{IsAdmitted, admitted-HasRoom}
use projectresourcequota.Controller.Usage.Rows.{RowCounted}
use projectresourcequota.Quota.Sums.{AllDistinct, row_total-same}
use projectresourcequota.Quota.Tally.{
  kind_row, kind_row-All, tally-more, IsOneMore, tally, tally-Rises, tally-whole,
}
use projectresourcequota.Quota.Recounted.{recounted}
use projectresourcequota.Quota.History.{IsReading, History}

created_recorded :
    (t t' u : ℤ) (n : ℕ)
    → t' ≤ℤ t +ℤ one
    → t ≤ℤ u +ℤ pos (n * nano)
    → t' ≤ℤ u +ℤ pos ((n + 1) * nano)
created_recorded t t' u n rise recorded = omega (int_laws, rise, recorded)

created_bounded :
    (t t' u h : ℤ) (n r : ℕ)
    → t' ≤ℤ t +ℤ one
    → t ≤ℤ u +ℤ pos (n * nano)
    → u <ℤ h
    → n ≤ r
    → t' <ℤ h +ℤ pos ((r + 1) * nano)
created_bounded t t' u h n r rise recorded room few = omega (int_laws, rise, recorded, room, few)

recounted_recorded : (t t' u : ℤ) → t' ≤ℤ t → u ≡ t → t' ≤ℤ u +ℤ pos (0 * nano)
recounted_recorded t t' u less same = rw same (omega (int_laws, less))

module _ {Q B S N : Type 0} ⦃q : Quantity Q⦄ (helper : PodResources Q B) (sets : StringSets N)
    (client : Client Q B S) (store : IsStore client) (status : IsStatusStore client)
    (projects : S → Reader Q) (prq : ProjectResourceQuota Q)
    (reading : IsReading client projects prq.meta.name) (k : Kind)
    (limited : has (gate k) prq.spec.hard ≡ true) (distinct : AllDistinct prq.spec.namespaces)
    (r : ℕ) where
  abbrev count : S → ℤ
  count s = tally client helper prq.spec.hard s k prq.spec.namespaces

  -- The project is stored with its specification; its objects are at most those that its status
  -- records and the creations since, and less than one more than those within the limit and `r`.
  record IsBounded (n : ℕ) (s : S) : Type 0 where
    current : ProjectResourceQuota Q
    got : client.get prq.meta.name s ≡ ok current
    same_spec : current.spec ≡ prq.spec
    live : is_deleting current ≡ false
    recorded : count s ≤ℤ used_amount (gate k) current +ℤ pos (n * nano)
    bounded : count s <ℤ hard_amount (gate k) prq +ℤ pos ((r + 1) * nano)

  fewer :
      (n : ℕ) (s s' : S)
      → client.get prq.meta.name s' ≡ client.get prq.meta.name s
      → count s' ≤ℤ count s
      → IsBounded n s
      → IsBounded n s'
  fewer n s s' kept less b = record {
    current = b.current;
    got = kept ∙ b.got;
    same_spec = b.same_spec;
    live = b.live;
    recorded = omega (int_laws, less, b.recorded);
    bounded = omega (int_laws, less, b.bounded);
  }

  -- A creation in a namespace of the project was let pass because there was room.
  room :
      (n : ℕ) (s : S) (b : IsBounded n s) (obj obj' : Object (Body B k))
      → IsAdmitted helper (projects s) k obj obj'
      → contains obj'.meta.namespace prq.spec.namespaces ≡ true
      → used_amount (gate k) b.current <ℤ hard_amount (gate k) prq
  room n s b obj obj' admitted inside =
      let (before, after, read, apart) = reading.listed s b.current b.got in
      let same_name = reading.named s b.current b.got in
      subst (λ spec. used_amount (gate k) b.current <ℤ q.amount (at spec.hard (gate k))) b.same_spec
        (admitted-HasRoom helper (projects s) before b.current after read apart
          (ap (projects s).get same_name ∙ reading.read s b.current b.got) k obj obj' admitted
          b.live (ap (λ spec. has (gate k) spec.hard) b.same_spec ∙ limited)
          (ap (λ spec. contains obj'.meta.namespace spec.namespaces) b.same_spec ∙ inside))

  level :
      (s s' : S)
      → ((ns : String)
          → contains ns prq.spec.namespaces ≡ true
          → client.list k ns s' ≡ client.list k ns s)
      → count s' ≤ℤ count s
  level s s' same =
      rw (row_total-same helper client prq.spec.hard (kind_row k) s s' prq.spec.namespaces same)
        (omega arith)

  -- More creations are waiting.
  later : (n : ℕ) (s : S) → IsBounded n s → IsBounded (n + 1) s
  later n s b = record {
    current = b.current;
    got = b.got;
    same_spec = b.same_spec;
    live = b.live;
    recorded = omega (int_laws, b.recorded);
    bounded = b.bounded;
  }

  created-IsBounded :
      (n : ℕ) (s s' : S) (obj obj' : Object (Body B k))
      → n ≤ r
      → IsAdmitted helper (projects s) k obj obj'
      → IsOneMore client k obj' s s'
      → IsBounded n s
      → IsBounded (n + 1) s'
  created-IsBounded n s s' obj obj' few admitted more b =
      let rise =
        (tally-Rises client helper prq.spec.hard k obj' s s' more prq.spec.namespaces distinct).1 in
      elim (Bool-cases (contains obj'.meta.namespace prq.spec.namespaces)) [
        | inr outside ↦ later n s' (
            fewer n s s' (more.projects prq.meta.name)
              (let level = rw outside at rise in omega (int_laws, level)) b)
        | inl inside ↦
            let rise' = rw inside at rise in
            let below = room n s b obj obj' admitted inside in
            record {
              current = b.current;
              got = more.projects prq.meta.name ∙ b.got;
              same_spec = b.same_spec;
              live = b.live;
              recorded = created_recorded _ _ _ n rise' b.recorded;
              bounded = created_bounded _ _ _ _ n r rise' b.recorded below few;
            }
      ]

  other_created-IsBounded :
      (n : ℕ) (s s' : S) (other : Kind) (obj obj' : Object (Body B other))
      → n ≤ r
      → IsAdmitted helper (projects s) other obj obj'
      → IsOneMore client other obj' s s'
      → IsBounded n s
      → IsBounded (n + 1) s'
  other_created-IsBounded n s s' other obj obj' few admitted more b = elim (kind_cases k other) [
    | inl same ↦
        subst
          (λ x.
            (o o' : Object (Body B x))
            → IsAdmitted helper (projects s) x o o'
            → IsOneMore client x o' s s'
            → IsBounded (n + 1) s')
          same (λ o o' passed one_more. created-IsBounded n s s' o o' few passed one_more b) obj
          obj' admitted more
    | inr differ ↦ later n s' (
        fewer n s s' (more.projects prq.meta.name)
          (level s s' (λ ns inside. more.elsewhere k ns (inl (λ e. differ (sym e))))) b)
  ]

  reconciled-IsBounded :
      (n : ℕ) (s s' : S)
      → reconcile helper sets client prq.meta.name s ≡ (ok tt, s')
      → IsBounded n s
      → IsBounded 0 s'
  reconciled-IsBounded n s s' done b =
      let same_name = reading.named s b.current b.got in
      let after =
        recounted helper sets client store status b.current s s'
          (ap (λ x. client.get x s) same_name ∙ b.got) b.live
          (ap (λ x. reconcile helper sets client x s) same_name ∙ done) in
      let tallied =
        kind_row-All helper
          (RowCounted helper client b.current.spec.hard s after.used b.current.spec.namespaces)
          after.counted k
        ∙ ap (λ spec. tally client helper spec.hard s k spec.namespaces) b.same_spec in
      let same = level s s' (λ ns inside. after.lists k ns (rw b.same_spec inside)) in
      record {
        current = _;
        got = ap (λ x. client.get x s') (sym same_name) ∙ after.got;
        same_spec = b.same_spec;
        live = b.live;
        recorded = recounted_recorded _ _ _ same tallied;
        bounded = omega (int_laws, same, b.bounded);
      }

  history-IsBounded :
      (start : S) {n : ℕ} {s : S}
      → History helper sets client projects prq.meta.name prq.spec.namespaces r start n s
      → IsBounded 0 start
      → IsBounded n s
  history-IsBounded start History.started b = b
  history-IsBounded start (History.created {n} {s} {s'} h few other obj obj' admitted more) b =
      other_created-IsBounded n s s' other obj obj' few admitted more (history-IsBounded start h b)
  history-IsBounded start (History.deleted {n} {s} {s'} h other obj more) b =
      fewer n s s' (sym (more.projects prq.meta.name))
        (tally-more client helper prq.spec.hard other obj s' s more k prq.spec.namespaces distinct)
        (history-IsBounded start h b)
  history-IsBounded start (History.elsewhere {n} {s} {s'} h kept same) b =
      fewer n s s' kept (level s s' (same k)) (history-IsBounded start h b)
  history-IsBounded start (History.reconciled {n} {s} {s'} h done) b =
      reconciled-IsBounded n s s' done (history-IsBounded start h b)

  -- Take a project that is not being deleted, lists no namespace twice and limits a kind of objects
  -- to the whole number `m`, and a state in which the objects of the kind that count for it are
  -- within the limit and not more than the status records. With webhooks that read the stored project, a client that
  -- stores what it is given, and projects that share no namespace: after any creations that the
  -- webhooks let pass, deletions, successful reconciliations and changes elsewhere, the project
  -- has at most `m + r` objects of the kind that count for it, if before each creation at most `r` creations were not
  -- followed by a reconciliation. So with a reconciliation after each creation, `m` is kept.
  pub quota_bound :
      (m : ℕ) (start : S) {n : ℕ} {s : S}
      → hard_amount (gate k) prq ≡ pos (m * nano)
      → client.get prq.meta.name start ≡ ok prq
      → is_deleting prq ≡ false
      → count start ≤ℤ used_amount (gate k) prq
      → count start ≤ℤ hard_amount (gate k) prq
      → History helper sets client projects prq.meta.name prq.spec.namespaces r start n s
      → (c : ℕ) × (count s ≡ pos (c * nano)) × (c ≤ m + r)
  quota_bound m start {n} {s} whole got live recorded within history =
      let b : IsBounded n s = history-IsBounded start history (record {
        current = prq;
        got = got;
        same_spec = refl;
        live = live;
        recorded = omega (int_laws, recorded);
        bounded = omega (int_laws, within);
      }) in
      let (c, counted) = tally-whole client helper prq.spec.hard s k prq.spec.namespaces in
      let below = rw (counted, whole) at b.bounded in (c, counted, omega (int_laws, below))
