-- ===== src/Api/Kept.antt =====
-- A request that writes keeps what its key, its service and the flush keep.
use whatsapp_api.Base.{refl}
use whatsapp_api.Base.Exec.{Action}
use whatsapp_api.Base.Keeps.{Keeps}
use whatsapp_api.Store.{Db, flush}
use whatsapp_api.Store.Kept.{Keeps-served}
use whatsapp_api.Auth.{AuthContext}
use whatsapp_api.Api.{write_with, db_view, db_put}

pub Keeps-write_with :
    {A : Type 0} {P : Db → Type 0} (flushed : Keeps P flush) (auth : Action Db AuthContext)
    (m : Action Db A)
    → Keeps P auth
    → Keeps P m
    → Keeps P (write_with auth m)
unfolding write_with
Keeps-write_with {A} {P} flushed auth m ka km = record {
  at = (Keeps-served P db_view db_put (λ _ _. refl) flushed auth (λ _. m) ka (λ _. km)).at;
}
