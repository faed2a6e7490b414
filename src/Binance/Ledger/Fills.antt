-- ===== src/Binance/Ledger/Fills.antt =====
-- The fills that the ledger keeps: of each trade the first, whatever was reported again.
use blessing_ai.Prelude.{
  ℕ, Bool, true, false, ◌||◌, Option, none, some, List, [], ◌∷◌, ◌++◌, arith, ◌≡◌, refl, sym, ap,
  ◌∙◌, subst, if◌then◌else◌, on_branches, OnSome, OnSome->>=, In, ◌≢◌, Bool-cases, inl, inr,
}
use blessing_ai.Binance.Ledger.{
  RawOrder, ExchangeFill, FillKey, InMemoryLedger, Call, get_fill_key, key_eq, holds_key, scan,
  has_fill, append_fill, update_balances, mark_initialized, upsert_order, upsert_raw_exchange_order,
  exchange_order, store_order, read_positions, replace_positions, upsert_position,
  clear_positions_for_symbol, call, call_all, or_same, empty_ledger, balances, initialize, order,
  raw_order, fill, all_positions, position, clear,
}
use blessing_ai.Binance.Ledger.Trades.{IsSameTrade, scan-IsSameTrade, scan-new}
use blessing_ai.Binance.Ledger.Positions.{RawPosition, to_exchange_position}

-- The fills without an index: a fill is added unless a fill of the same trade is there.
abbrev pub add_fill : ExchangeFill → List ExchangeFill → List ExchangeFill
add_fill f fs = if scan (get_fill_key f) fs then fs else fs ++ f ∷ []

unfoldable pub add_fills : List Call → List ExchangeFill → List ExchangeFill
add_fills [] fs = fs
add_fills (fill f ∷ cs) fs = add_fills cs (add_fill f fs)
add_fills (_ ∷ cs) fs = add_fills cs fs

-- every key of the index is that of a fill
abbrev IsIndexed : InMemoryLedger → Type 0
IsIndexed l = (k : FillKey) → holds_key k l.fill_keys ≡ true → scan k l.fills ≡ true

-- what a method that does not deal with fills leaves alone
abbrev IsSameFills : InMemoryLedger → InMemoryLedger → Type 0
IsSameFills l m = (m.fills ≡ l.fills) × (m.fill_keys ≡ l.fill_keys)

abbrev IsNext : List ExchangeFill → InMemoryLedger → Type 0
IsNext fs m = (m.fills ≡ fs) × IsIndexed m

scan-append :
    (k : FillKey) (fs : List ExchangeFill) (f : ExchangeFill)
    → scan k (fs ++ f ∷ []) ≡ (scan k fs || key_eq (get_fill_key f) k)
scan-append k [] f = ground arith
scan-append k (g ∷ fs) f = let h = scan-append k fs f in rw h (ground arith)

fresh_key :
    (f : ExchangeFill) (l : InMemoryLedger) (j : FillKey)
    → (holds_key j l.fill_keys ≡ true → scan j l.fills ≡ true)
    → holds_key j (get_fill_key f ∷ l.fill_keys) ≡ true
    → scan j (l.fills ++ f ∷ []) ≡ true
fresh_key f l j h = rw (scan-append j l.fills f) (ground (arith, h))

append_fill-IsNext :
    (f : ExchangeFill) (l : InMemoryLedger)
    → IsIndexed l
    → IsNext (add_fill f l.fills) (append_fill f l)
unfolding append_fill has_fill
append_fill-IsNext f l h =
    let k = get_fill_key f in
    let at = h k in
    on_branches (IsNext (add_fill f l.fills))
      (holds_key k l.fill_keys || (if holds_key k l.fill_keys then true else scan k l.fills))
      (λ e. let e' : scan k l.fills ≡ true = ground (arith, at, e) in (rw e' refl, h))
      (λ e.
        let e' : scan k l.fills ≡ false = ground (arith, e) in
        (rw e' refl, λ j. fresh_key f l j (h j)))

same-IsNext : (l m : InMemoryLedger) → IsSameFills l m → IsIndexed l → IsNext l.fills m
same-IsNext l m (e, f) h = (e, λ k held. rw e (h k (subst (λ ks. holds_key k ks ≡ true) f held)))

or_same-IsSameFills :
    (o : Option InMemoryLedger) (l : InMemoryLedger)
    → OnSome (IsSameFills l) o
    → IsSameFills l (or_same o l)
or_same-IsSameFills none l h = (refl, refl)
or_same-IsSameFills (some m) l h = h

upsert_raw-IsSameFills :
    (now : ℕ) (raw : RawOrder) (l : InMemoryLedger)
    → OnSome (IsSameFills l) (upsert_raw_exchange_order now raw l)
unfolding upsert_raw_exchange_order store_order
upsert_raw-IsSameFills now raw l =
    OnSome->>= (IsSameFills l) (exchange_order now raw l) _ (λ o. (refl, refl))

replace-IsSameFills :
    (raws : List RawPosition) (mark : Bool) (l : InMemoryLedger)
    → OnSome (IsSameFills l) (replace_positions raws mark l)
unfolding replace_positions
replace-IsSameFills raws mark l =
    OnSome->>= (IsSameFills l) (read_positions raws) _ (λ ps. (refl, refl))

upsert-IsSameFills :
    (raw : RawPosition) (l : InMemoryLedger) → OnSome (IsSameFills l) (upsert_position raw l)
unfolding upsert_position
upsert-IsSameFills raw l =
    OnSome->>= (IsSameFills l) (to_exchange_position raw) _ (λ p. (refl, refl))

-- The fills after a call, without the index.
abbrev after : Call → List ExchangeFill → List ExchangeFill
after (fill f) fs = add_fill f fs
after _ fs = fs

call-IsNext : (c : Call) (l : InMemoryLedger) → IsIndexed l → IsNext (after c l.fills) (call c l)
unfolding call update_balances mark_initialized upsert_order clear_positions_for_symbol
call-IsNext (balances w m) l h = (refl, h)
call-IsNext initialize l h = (refl, h)
call-IsNext (order o) l h = (refl, h)
call-IsNext (raw_order now raw) l h =
    same-IsNext l (or_same (upsert_raw_exchange_order now raw l) l)
      (or_same-IsSameFills _ l (upsert_raw-IsSameFills now raw l)) h
call-IsNext (fill f) l h = append_fill-IsNext f l h
call-IsNext (all_positions raws mark) l h =
    same-IsNext l (or_same (replace_positions raws mark l) l)
      (or_same-IsSameFills _ l (replace-IsSameFills raws mark l)) h
call-IsNext (position raw) l h =
    same-IsNext l (or_same (upsert_position raw l) l)
      (or_same-IsSameFills _ l (upsert-IsSameFills raw l)) h
call-IsNext (clear t) l h = (refl, h)

add_fills-after :
    (c : Call) (cs : List Call) (fs : List ExchangeFill)
    → add_fills (c ∷ cs) fs ≡ add_fills cs (after c fs)
unfolding add_fills
add_fills-after (balances w m) cs fs = refl
add_fills-after initialize cs fs = refl
add_fills-after (order o) cs fs = refl
add_fills-after (raw_order now raw) cs fs = refl
add_fills-after (fill f) cs fs = refl
add_fills-after (all_positions raws mark) cs fs = refl
add_fills-after (position raw) cs fs = refl
add_fills-after (clear t) cs fs = refl

call_all-add_fills :
    (cs : List Call) (l : InMemoryLedger)
    → IsIndexed l
    → (call_all cs l).fills ≡ add_fills cs l.fills
unfolding call_all add_fills
call_all-add_fills [] l h = refl
call_all-add_fills (c ∷ cs) l h =
    let (e, h') = call-IsNext c l h in
    call_all-add_fills cs (call c l) h' ∙ ap (add_fills cs) e ∙ sym (add_fills-after c cs l.fills)

-- Some of the fills that the calls report are added to those that are there: each, in order, of whose trade
-- none is there yet.
pub data Added : List Call → List ExchangeFill → List ExchangeFill → Type 0 where
  done : {fs : List ExchangeFill} → Added [] fs fs
  first :
      {f : ExchangeFill} {cs : List Call} {fs gs : List ExchangeFill}
      → ((g : ExchangeFill) → In g fs → ¬ (IsSameTrade f g))
      → Added cs (fs ++ f ∷ []) gs
      → Added (fill f ∷ cs) fs gs
  again :
      {f : ExchangeFill} {cs : List Call} {fs gs : List ExchangeFill} {g : ExchangeFill}
      → In g fs
      → IsSameTrade f g
      → Added cs fs gs
      → Added (fill f ∷ cs) fs gs
  other :
      {c : Call} {cs : List Call} {fs gs : List ExchangeFill}
      → ((f : ExchangeFill) → c ≢ fill f)
      → Added cs fs gs
      → Added (c ∷ cs) fs gs

add_fills-Added : (cs : List Call) (fs : List ExchangeFill) → Added cs fs (add_fills cs fs)
unfolding add_fills
add_fills-Added [] fs = done
add_fills-Added (fill f ∷ cs) fs = elim (Bool-cases (scan (get_fill_key f) fs)) [
  | inl e ↦ let (g, i, s) = scan-IsSameTrade f fs e in rw e (again i s (add_fills-Added cs fs))
  | inr e ↦ rw e (first (scan-new f fs e) (add_fills-Added cs (fs ++ f ∷ [])))
]
add_fills-Added (balances w m ∷ cs) fs = other (λ f e. cc) (add_fills-Added cs fs)
add_fills-Added (initialize ∷ cs) fs = other (λ f e. cc) (add_fills-Added cs fs)
add_fills-Added (order o ∷ cs) fs = other (λ f e. cc) (add_fills-Added cs fs)
add_fills-Added (raw_order now raw ∷ cs) fs = other (λ f e. cc) (add_fills-Added cs fs)
add_fills-Added (all_positions raws mark ∷ cs) fs = other (λ f e. cc) (add_fills-Added cs fs)
add_fills-Added (position raw ∷ cs) fs = other (λ f e. cc) (add_fills-Added cs fs)
add_fills-Added (clear t ∷ cs) fs = other (λ f e. cc) (add_fills-Added cs fs)

-- After any calls of its methods on an empty ledger, the fills that it keeps are, in order, each that was
-- reported and of whose trade none was kept before. Two fills are of one trade if their sources name the
-- same venue and they have the same symbol and trade id.
pub fills_without_index : (cs : List Call) → Added cs [] (call_all cs empty_ledger).fills
fills_without_index cs =
    subst (λ fs. Added cs [] fs) (sym (call_all-add_fills cs empty_ledger (λ k e. e)))
      (add_fills-Added cs [])
