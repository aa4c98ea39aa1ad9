-- ===== src/Dispatcher/Sender.antt =====
-- What the dispatcher needs of the `EncodeAndSend` that it is built with: `send_` never hands out the
-- id of an earlier request again. `issued s id` says that the id has been handed out.
use fountainer_client_framew.Common.{
  ◌≡◌, refl, Bool, true, false, none, String, List, [], ◌∷◌, ℕ, arith, same_text_iff,
}
use fountainer_client_framew.Error.{Result, ok, err, timeout_error}
use fountainer_client_framew.Dispatcher.Store.{Map, get, emplace, erase}
use fountainer_client_framew.Dispatcher.Types.{RequestSpec, Pending, Event, incr}
use fountainer_client_framew.Dispatcher.Queue.{complete, sweep_pending}

pub record FreshIds {S : Type 0} (send_ : S → RequestSpec → Result String × S) : Type 0 where
  pub issued : S → String → Bool
  pub fresh :
      (s : S) (spec : RequestSpec) (id : String) → (send_ s spec).0 ≡ ok id → issued s id ≡ false
  pub records :
      (s : S) (spec : RequestSpec) (id : String)
      → (send_ s spec).0 ≡ ok id
      → issued (send_ s spec).1 id ≡ true
  pub keeps :
      (s : S) (spec : RequestSpec) (id : String)
      → issued s id ≡ true
      → issued (send_ s spec).1 id ≡ true

-- Every key of the map satisfies a test.
abbrev pub AllKeys {ℓ} : {V : Type ℓ} → (String → Bool) → Map V → Type 0
AllKeys p [] = Unit {0}
AllKeys p ((j, v) ∷ m) = (p j ≡ true) × AllKeys p m

pub get_none {ℓ} :
    {V : Type ℓ} (p : String → Bool) (id : String) (m : Map V)
    → AllKeys p m
    → p id ≡ false
    → get id m ≡ none
unfolding get
get_none p id [] a h = refl
get_none p id ((j, v) ∷ m) a h = ground (arith, same_text_iff id j, get_none p id m a.1 h)

pub emplace-AllKeys {ℓ} :
    {V : Type ℓ} (p : String → Bool) (id : String) (v : V) (m : Map V)
    → AllKeys p m
    → p id ≡ true
    → AllKeys p (emplace id v m)
unfolding emplace
emplace-AllKeys p id v [] a h = (h, tt)
emplace-AllKeys p id v ((j, w) ∷ m) a h = ground (arith, emplace-AllKeys p id v m a.1 h)

pub erase-AllKeys {ℓ} :
    {V : Type ℓ} (p : String → Bool) (id : String) (m : Map V)
    → AllKeys p m
    → AllKeys p (erase id m)
unfolding erase
erase-AllKeys p id [] a = tt
erase-AllKeys p id ((j, w) ∷ m) a = ground (arith, erase-AllKeys p id m a.1)

pub sweep_pending-AllKeys :
    (p : String → Bool) (now : ℕ) (m : Map Pending) (t : List Event) (n : ℕ)
    → AllKeys p m
    → AllKeys p (sweep_pending now m t n).kept
unfolding sweep_pending
sweep_pending-AllKeys p now [] t n a = tt
sweep_pending-AllKeys p now ((j, w) ∷ m) t n a = ground (
  arith,
  sweep_pending-AllKeys p now m t n a.1,
  sweep_pending-AllKeys p now m (complete w.handlers (err (timeout_error w.type)) t) (incr n) a.1,
)

pub AllKeys-weaken {ℓ} :
    {V : Type ℓ} (p q : String → Bool) (m : Map V)
    → ((id : String) → p id ≡ true → q id ≡ true)
    → AllKeys p m
    → AllKeys q m
AllKeys-weaken p q [] f a = tt
AllKeys-weaken p q ((j, v) ∷ m) f a = (f j a.0, AllKeys-weaken p q m f a.1)
