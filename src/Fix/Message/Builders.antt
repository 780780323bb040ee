-- ===== src/Fix/Message/Builders.antt =====
-- The convenience builders of `FIXMessage` (src/protocols/fix_handler.py). The clock is an
-- argument: `now` is what `_utc_timestamp` returns, and a second call of it is `later`.
use algo_engine.Prelude.{
  ℕ, ◌+◌, ◌≡◌, refl, ◌∙◌, ap, length-append, Bool, true, false, Option, none, some, List, [], ◌∷◌,
  ◌++◌, arith, if◌then◌else◌, length,
}
use algo_engine.Prelude.Int.{ℤ, pos}
use algo_engine.Prelude.Eq.{int_eq, ◌=?◌}
use algo_engine.Prelude.Dict.{insert, lookup, lookup-insert}
use algo_engine.Fix.Text.{Text, codes, str_int, str_nat}

abbrev pub Fields : Type 0
Fields = List (ℤ × Text)

-- `msg.set(tag, value)` at an integer tag and a text.
abbrev pub put : ℕ → Text → Fields → Fields
put tag value msg = insert (pos tag) value msg

-- `if value: msg.set(tag, value)`
abbrev pub put_if_any : ℕ → Text → Fields → Fields
put_if_any tag [] msg = msg
put_if_any tag (c ∷ t) msg = put tag (c ∷ t) msg

-- The header that every builder begins with.
abbrev pub header : Text → Text → ℤ → Text → Text → Fields
header sender target seq_num type now = put 52 now (
    put 35 type
      (put 34 (str_int seq_num) (put 56 target (put 49 sender (put 8 (codes "FIX.4.4") [])))))

unfoldable pub logon : Text → Text → ℤ → ℤ → Text → Text → Bool → Text → Fields
logon sender target seq_num heart_bt_int username password reset_seq now =
    let base =
      put 108 (str_int heart_bt_int)
        (put 98 (codes "0") (header sender target seq_num (codes "A") now)) in
    put_if_any 554 password
      (put_if_any 553 username (if reset_seq then put 141 (codes "Y") base else base))

unfoldable pub heartbeat : Text → Text → ℤ → Text → Fields
heartbeat sender target seq_num now = header sender target seq_num (codes "0") now

unfoldable pub logout : Text → Text → ℤ → Text → Text → Fields
logout sender target seq_num reason now =
    put_if_any 58 reason (header sender target seq_num (codes "5") now)

put_price : Option Text → Fields → Fields
put_price none msg = msg
put_price (some price) msg = put 44 price msg

-- `order_qty` and `price` by their `str`.
unfoldable pub new_order_single :
    Text → Text → ℤ → Text → Text → Text → Text → Option Text → Text → Text → Text → Text → Fields
unfolding put_price
new_order_single sender target seq_num cl_ord_id symbol side order_qty price ord_type time_in_force
      now later =
    put 60 later (
      put 59 time_in_force (
        put_price price (
          put 40 ord_type (
            put 38 order_qty (
              put 54 side (
                put 55 symbol
                  (put 11 cl_ord_id (header sender target seq_num (codes "D") now))))))))

unfoldable pub order_cancel_request :
    Text → Text → ℤ → Text → Text → Text → Text → Text → Text → Fields
order_cancel_request sender target seq_num orig_cl_ord_id cl_ord_id symbol side now later =
    put 60 later (
      put 54 side (
        put 55 symbol (
          put 11 cl_ord_id (put 41 orig_cl_ord_id (header sender target seq_num (codes "F") now)))))

-- `for x in xs: msg.set(tag, x)`
put_each : ℕ → List Text → Fields → Fields
put_each tag [] msg = msg
put_each tag (x ∷ xs) msg = put_each tag xs (put tag x msg)

-- `md_entry_types or ["0", "1"]`
or_default_types : List Text → List Text
or_default_types [] = codes "0" ∷ codes "1" ∷ []
or_default_types (t ∷ ts) = t ∷ ts

unfoldable pub market_data_request :
    Text → Text → ℤ → Text → List Text → Text → ℤ → List Text → Text → Fields
unfolding put_each or_default_types
market_data_request sender target seq_num md_req_id symbols subscription_type market_depth
      md_entry_types now =
    let types = or_default_types md_entry_types in
    put_each 55 symbols (
      put 146 (str_nat (length symbols)) (
        put_each 269 types (
          put 267 (str_nat (length types)) (
            put 264 (str_int market_depth) (
              put 263 subscription_type
                (put 262 md_req_id (header sender target seq_num (codes "V") now)))))))

lookup-put_if_any :
    (tag : ℕ) (t : Text) (msg : Fields) (j : ℤ)
    → (pos tag =? j) ≡ false
    → lookup j (put_if_any tag t msg) ≡ lookup j msg
lookup-put_if_any tag [] msg j h = refl
lookup-put_if_any tag (c ∷ t) msg j h = ground (arith, lookup-insert (pos tag) j (c ∷ t) msg)

pub lookup-logout :
    (sender target : Text) (n : ℤ) (reason now : Text)
    → lookup (pos 34) (logout sender target n reason now) ≡ some (str_int n)
unfolding logout
lookup-logout sender target n reason now =
    lookup-put_if_any 58 reason (header sender target n (codes "5") now) (pos 34) refl

pub lookup-logon_type :
    (sender target : Text) (n heart_bt_int : ℤ) (username password : Text) (reset_seq : Bool)
    (now : Text)
    → lookup (pos 35) (logon sender target n heart_bt_int username password reset_seq now)
      ≡ some (codes "A")
unfolding logon
lookup-logon_type sender target n heart_bt_int username password true now =
    lookup-put_if_any 554 password _ (pos 35) refl ∙ lookup-put_if_any 553 username _ (pos 35) refl
lookup-logon_type sender target n heart_bt_int username password false now =
    lookup-put_if_any 554 password _ (pos 35) refl ∙ lookup-put_if_any 553 username _ (pos 35) refl

pub lookup-logon :
    (sender target : Text) (n heart_bt_int : ℤ) (username password : Text) (reset_seq : Bool)
    (now : Text)
    → lookup (pos 34) (logon sender target n heart_bt_int username password reset_seq now)
      ≡ some (str_int n)
unfolding logon
lookup-logon sender target n heart_bt_int username password true now =
    lookup-put_if_any 554 password _ (pos 34) refl ∙ lookup-put_if_any 553 username _ (pos 34) refl
lookup-logon sender target n heart_bt_int username password false now =
    lookup-put_if_any 554 password _ (pos 34) refl ∙ lookup-put_if_any 553 username _ (pos 34) refl

put_each-append :
    (tag : ℕ) (xs : List Text) (x : Text) (msg : Fields)
    → put_each tag (xs ++ (x ∷ [])) msg ≡ put tag x (put_each tag xs msg)
unfolding put_each
put_each-append tag [] x msg = refl
put_each-append tag (y ∷ xs) x msg = put_each-append tag xs x (put tag y msg)

lookup-put_each :
    (tag : ℕ) (xs : List Text) (msg : Fields) (j : ℤ)
    → (pos tag =? j) ≡ false
    → lookup j (put_each tag xs msg) ≡ lookup j msg
unfolding put_each
lookup-put_each tag [] msg j h = refl
lookup-put_each tag (x ∷ xs) msg j h =
    lookup-put_each tag xs (put tag x msg) j h
    ∙ lookup-insert (pos tag) j x msg
    ∙ ap (λ b. if b then some x else lookup j msg) h

-- A market data request for at least one symbol announces the number of all its symbols, and its
-- Symbol field, which each of them overwrites, holds the last.
pub market_data_request_last :
    (sender target : Text) (n : ℤ) (id : Text) (symbols : List Text) (symbol : Text)
    (subscription : Text) (depth : ℤ) (types : List Text) (now : Text)
    → let msg =
        market_data_request sender target n id
          (symbols ++ (symbol ∷ []))
          subscription
          depth
          types
          now in
      (lookup (pos 146) msg ≡ some (str_nat (length symbols + 1)))
      × (lookup (pos 55) msg ≡ some symbol)
unfolding market_data_request put_each
market_data_request_last sender target n id symbols symbol subscription depth types now =
    let types' = or_default_types types in
    let base = put_each 269 types' (
      put 267 (str_nat (length types')) (
        put 264 (str_int depth)
          (put 263 subscription (put 262 id (header sender target n (codes "V") now))))) in
    let count = str_nat (length (symbols ++ (symbol ∷ []))) in
    let size : length (symbols ++ (symbol ∷ [])) ≡ length symbols + 1 =
      omega (arith, length-append symbols (symbol ∷ [])) in
    (
      lookup-put_each 55 (symbols ++ (symbol ∷ [])) (put 146 count base) (pos 146) refl
          ∙ lookup-insert (pos 146) (pos 146) count base
          ∙ ap (λ k. some (str_nat k)) size,
      ap (lookup (pos 55)) (put_each-append 55 symbols symbol (put 146 count base))
          ∙ lookup-insert (pos 55) (pos 55) symbol (put_each 55 symbols (put 146 count base)),
    )
