-- ===== src/Services/Jobs/Program.antt =====
-- Programs of several transactions: what was committed stays when a later step raises.
use schemabridge.Base.{◌≡◌, refl, Option, none, some}
use schemabridge.Base.Outcome.{Outcome, Error, ok, raise}
use schemabridge.Repository.Store.{Store}

abbrev pub Program : Type 0 → Type 0
Program A = Store → Outcome A × Store

abbrev pub after : {A B : Type 0} → Outcome A × Store → (A → Program B) → Outcome B × Store
after (ok a, s) next = next a s
after (raise e, s) next = (raise e, s)

infixl 5 ◌>>=◌
abbrev pub ◌>>=◌ : {B A : Type 0} → Program A → (A → Program B) → Program B
m >>= next = λ s. after (m s) next

infixl 5 ◌>>◌
abbrev pub ◌>>◌ : {B : Type 0} → Program (Unit {0}) → Program B → Program B
check >> next = check >>= λ u. next

abbrev pub return : {A : Type 0} → A → Program A
return a = λ s. (ok a, s)

abbrev pub fail_with : {A : Type 0} → Error → Program A
fail_with e = λ s. (raise e, s)

-- One transaction: it commits, or raises and changes nothing.
abbrev pub settled : {A : Type 0} → Outcome (A × Store) → Store → Outcome A × Store
settled (ok (a, t)) s = (ok a, t)
settled (raise e) s = (raise e, s)

abbrev pub transaction : {A : Type 0} → (Store → Outcome (A × Store)) → Program A
transaction f = λ s. settled (f s) s

-- A transaction that only reads.
abbrev pub query : {A : Type 0} → (Store → Outcome A) → Program A
query f = λ s. (f s, s)

abbrev pub rescued : {B : Type 0} → Option (Program B) → Error → Program B
rescued none e = fail_with e
rescued (some handler) e = handler

abbrev pub otherwise :
    {A B : Type 0}
    → Outcome A × Store
    → (Error → Option (Program B))
    → (A → Program B)
    → Outcome B × Store
otherwise (ok a, s) handlers next = next a s
otherwise (raise e, s) handlers next = rescued (handlers e) e s

-- `try: a = m; except ...: return handler`, and then the rest.
abbrev pub trying :
    {A B : Type 0} → Program A → (Error → Option (Program B)) → (A → Program B) → Program B
trying m handlers next = λ s. otherwise (m s) handlers next

pub after-eq-ok :
    {A B : Type 0} (m : Outcome A × Store) (next : A → Program B) {b : B} {t : Store}
    → after m next ≡ (ok b, t)
    → (a : A) × (u : Store) × (m ≡ (ok a, u)) × (next a u ≡ (ok b, t))
after-eq-ok (ok a, s) next h = (a, s, refl, h)
after-eq-ok (raise e, s) next h = cc

pub settled-eq-ok :
    {A : Type 0} (m : Outcome (A × Store)) (s : Store) {a : A} {t : Store}
    → settled m s ≡ (ok a, t)
    → m ≡ ok (a, t)
settled-eq-ok (ok (a, u)) s h = cc
settled-eq-ok (raise e) s h = cc
