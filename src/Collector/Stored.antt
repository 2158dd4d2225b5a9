-- ===== src/Collector/Stored.antt =====
-- About collector/height_runner.go: the collector of a source keeps to what the loop asks of it.
use cosmwasm_etl.Prelude.{
  ℕ, String, ◌≡◌, ◌<◌, refl, ap, sym, ◌∙◌, Bool, true, false, List, [], ◌∷◌, if◌then◌else◌, subst,
  ◌⊎◌, inl, inr,
}
use cosmwasm_etl.EventLog.Error.{Error, Result, Fallible, ok, err, crash}
use cosmwasm_etl.Dex.Types.{RawTx, PoolInfo}
use cosmwasm_etl.Collector.Runner.{
  RepoError, not_found, unavailable, other, Stores, SourceHeightCollector, before, local_height,
  is_snapshot, saved, with_infos, with_txs, collect_height, source_height_collector,
}
use cosmwasm_etl.Collector.Heights.{last_height, IsAbove}
use cosmwasm_etl.Collector.Contiguous.{Laws}

-- What the repository and the source promise: `stored` are the heights that the synced height has stood
-- at, the last one first. `SaveHeight` sets it to the greater of the old height and the saved one, so
-- that a height above it becomes the synced height; a save that fails is rolled back; the source leaves
-- them alone.
pub record StoreLaws {W : Type 0} (o : Stores W) (id : String) (stored : W → List ℕ) : Type 0 where
  pub synced_keeps : (w : W) → stored (o.get_synced_height id w).1 ≡ stored w
  pub synced_last :
      (w : W) (h : ℕ) → (o.get_synced_height id w).0 ≡ ok h → (hs : List ℕ) × (stored w ≡ h ∷ hs)
  pub synced_none : (w : W) → (o.get_synced_height id w).0 ≡ err not_found → stored w ≡ []
  pub synced_without : (w : W) → (o.get_synced_height id w).0 ≡ err unavailable → stored w ≡ []
  pub source_keeps : (w : W) → stored (o.get_source_synced_height w).1 ≡ stored w
  pub source_word :
      (w : W) (h : ℕ) → (o.get_source_synced_height w).0 ≡ ok h → h < 18446744073709551615
  pub txs_keep : (h : ℕ) (w : W) → stored (o.get_source_txs h w).1 ≡ stored w
  pub infos_keep : (h : ℕ) (w : W) → stored (o.get_pool_infos h w).1 ≡ stored w
  pub saves :
      (h time : ℕ) (txs : List RawTx) (infos : List PoolInfo) (b : Bool) (w : W)
      → IsAbove h (stored w)
      → (o.save_height id h time txs infos b w).0 ≡ ok tt
      → stored (o.save_height id h time txs infos b w).1 ≡ h ∷ stored w
  pub save_fails :
      (h time : ℕ) (txs : List RawTx) (infos : List PoolInfo) (b : Bool) (w : W) (e : Error)
      → (o.save_height id h time txs infos b w).0 ≡ err e
      → stored (o.save_height id h time txs infos b w).1 ≡ stored w
  pub save_panics :
      (h time : ℕ) (txs : List RawTx) (infos : List PoolInfo) (b : Bool) (w : W)
      → (o.save_height id h time txs infos b w).0 ≡ crash
      → stored (o.save_height id h time txs infos b w).1 ≡ stored w

module _ {W : Type 0} (o : Stores W) (c : SourceHeightCollector) (stored : W → List ℕ)
    (laws : StoreLaws o c.chain_id stored) where
  -- A height above the last that is collected is stored, and one that is not leaves the store as it was.
  abbrev Booked : ℕ → List ℕ → Result (Unit {0}) × W → Type 0
  Booked h hs (ok u, w) = IsAbove h hs → stored w ≡ h ∷ hs
  Booked h hs (err e, w) = stored w ≡ hs
  Booked h hs (crash, w) = stored w ≡ hs

  result-Booked :
      (h : ℕ) (w : W) (p : Result (Unit {0}) × W)
      → (IsAbove h (stored w) → p.0 ≡ ok tt → stored p.1 ≡ h ∷ stored w)
      → ((e : Error) → p.0 ≡ err e → stored p.1 ≡ stored w)
      → (p.0 ≡ crash → stored p.1 ≡ stored w)
      → Booked h (stored w) p
  result-Booked h w (ok u, w') a b d = λ above. a above refl
  result-Booked h w (err e, w') a b d = b e refl
  result-Booked h w (crash, w') a b d = d refl

  saved-Booked :
      (h : ℕ) (txs : List RawTx) (infos : List PoolInfo) (w : W)
      → Booked h (stored w) (saved o c h txs infos w)
  saved-Booked h txs infos w =
      result-Booked h w (saved o c h txs infos w) (laws.saves h _ txs infos _ w)
        (laws.save_fails h _ txs infos _ w) (laws.save_panics h _ txs infos _ w)

  with_infos-Booked :
      (h : ℕ) (txs : List RawTx) (p : Result (List PoolInfo) × W) (hs : List ℕ)
      → stored p.1 ≡ hs
      → Booked h hs (with_infos o c h txs p)
  with_infos-Booked h txs (ok infos, w) hs e =
      subst (λ l. Booked h l (saved o c h txs infos w)) e (saved-Booked h txs infos w)
  with_infos-Booked h txs (err x, w) hs e = e
  with_infos-Booked h txs (crash, w) hs e = e

  with_txs-Booked :
      (h : ℕ) (p : Result (List RawTx) × W) (hs : List ℕ)
      → stored p.1 ≡ hs
      → Booked h hs (with_txs o c h p)
  with_txs-Booked h (ok txs, w) hs e = with_infos-Booked h txs _ hs (infos (is_snapshot o c h))
    where
      infos : (b : Bool) → stored (if b then o.get_pool_infos h w else (ok [], w)).1 ≡ hs
      infos true = laws.infos_keep h w ∙ e
      infos false = e
  with_txs-Booked h (err x, w) hs e = e
  with_txs-Booked h (crash, w) hs e = e

  collect_height-Booked : (h : ℕ) (w : W) → Booked h (stored w) (collect_height o c h w)
  unfolding collect_height
  collect_height-Booked h w =
      with_txs-Booked h (o.get_source_txs h w) (stored w) (laws.txs_keep h w)

  stored_of_ok :
      (h : ℕ) (hs : List ℕ) (p : Result (Unit {0}) × W)
      → Booked h hs p
      → IsAbove h hs
      → p.0 ≡ ok tt
      → stored p.1 ≡ h ∷ hs
  stored_of_ok h hs (ok u, w) b above e = b above
  stored_of_ok h hs (err x, w) b above e = absurd cc
  stored_of_ok h hs (crash, w) b above e = absurd cc

  stored_of_err :
      (h : ℕ) (hs : List ℕ) (p : Result (Unit {0}) × W) (x : Error)
      → Booked h hs p
      → p.0 ≡ err x
      → stored p.1 ≡ hs
  stored_of_err h hs (ok u, w) x b e = absurd cc
  stored_of_err h hs (err y, w) x b e = b
  stored_of_err h hs (crash, w) x b e = absurd cc

  stored_of_crash :
      (h : ℕ) (hs : List ℕ) (p : Result (Unit {0}) × W)
      → Booked h hs p
      → p.0 ≡ crash
      → stored p.1 ≡ hs
  stored_of_crash h hs (ok u, w) b e = absurd cc
  stored_of_crash h hs (err y, w) b e = absurd cc
  stored_of_crash h hs (crash, w) b e = b

  repo_cases :
      (r : Fallible RepoError ℕ)
      → ((h : ℕ) × (r ≡ ok h))
        ⊎ ((r ≡ err not_found)
            ⊎ ((r ≡ err unavailable) ⊎ (((e : Error) × (r ≡ err (other e))) ⊎ (r ≡ crash))))
  repo_cases (ok h) = inl (h, refl)
  repo_cases (err not_found) = inr (inl refl)
  repo_cases (err unavailable) = inr (inr (inl refl))
  repo_cases (err (other e)) = inr (inr (inr (inl (e, refl))))
  repo_cases crash = inr (inr (inr (inr refl)))

  -- The local height and the store behind it.
  abbrev Reads : W → Type 0
  Reads w =
      (stored (local_height o c w).1 ≡ stored w)
      × ((h : ℕ) → (local_height o c w).0 ≡ ok h → h ≡ last_height c.start_height (stored w))

  local_height-Reads : (w : W) → Reads w
  unfolding local_height
  local_height-Reads w =
      let keeps = laws.synced_keeps w in
      elim (repo_cases (o.get_synced_height c.chain_id w).0) [
        | inl (h', f) ↦
            rw (f, local_height)
              (
                keeps,
                λ h e.
                    let same : h ≡ h' = cc in
                    same ∙ sym (ap (last_height c.start_height) (laws.synced_last w h' f).1),
              )
        | inr (inl f) ↦
            rw (f, local_height)
              (
                keeps,
                λ h e.
                    let same : h ≡ before c.start_height = cc in
                    same ∙ sym (ap (last_height c.start_height) (laws.synced_none w f)),
              )
        | inr (inr (inl f)) ↦
            rw (f, local_height)
              (
                keeps,
                λ h e.
                    let same : h ≡ before c.start_height = cc in
                    same ∙ sym (ap (last_height c.start_height) (laws.synced_without w f)),
              )
        | inr (inr (inr (inl (x, f)))) ↦ rw (f, local_height) (keeps, λ h e. absurd cc)
        | inr (inr (inr (inr f))) ↦ rw (f, local_height) (keeps, λ h e. absurd cc)
      ]

-- Over a repository and a source that keep their promises, the collector of a source keeps to the laws
-- that the loop asks of a collector: the local height is the last one stored, or the one before the
-- start, a height above it becomes the local height when it is collected, and a failure stores nothing.
pub source_height_collector-Laws :
    {W : Type 0} (o : Stores W) (c : SourceHeightCollector) (stored : W → List ℕ)
    → StoreLaws o c.chain_id stored
    → Laws (source_height_collector o c) c.start_height stored
unfolding source_height_collector
source_height_collector-Laws o c stored laws = record {
  local_keeps = λ w. (local_height-Reads o c stored laws w).0;
  local_last = λ w. (local_height-Reads o c stored laws w).1;
  source_keeps = laws.source_keeps;
  source_word = laws.source_word;
  collects = λ h w.
      stored_of_ok o c stored laws h (stored w) (collect_height o c h w)
        (collect_height-Booked o c stored laws h w);
  fails = λ h w e.
      stored_of_err o c stored laws h (stored w) (collect_height o c h w) e
        (collect_height-Booked o c stored laws h w);
  panics = λ h w.
      stored_of_crash o c stored laws h (stored w) (collect_height o c h w)
        (collect_height-Booked o c stored laws h w);
}
