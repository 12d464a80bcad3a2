-- ===== src/Migrations/Laws.antt =====
-- The upgrade to the head, and the downgrade to the base.
use whatsapp_api.Base.{Option, none, some, List, ◌++◌}
use whatsapp_api.Migrations.{Schema, Op, step, run, empty}
use whatsapp_api.Migrations.Initial
use whatsapp_api.Migrations.ApiKeys

-- `alembic upgrade head` and `alembic downgrade base`, in the order of `down_revision`.
unfoldable pub upgrade_head : List Op
upgrade_head = Initial.upgrade ++ ApiKeys.upgrade

unfoldable pub downgrade_base : List Op
downgrade_base = ApiKeys.downgrade ++ Initial.downgrade

abbrev or_empty : Option Schema → Schema
or_empty none = empty
or_empty (some s) = s

-- What the upgrade makes.
unfoldable pub head_schema : Schema
unfolding upgrade_head Initial.upgrade ApiKeys.upgrade run step
head_schema = or_empty (run upgrade_head empty)
