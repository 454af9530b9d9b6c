-- ===== src/Frontend/Forms/Bodies.antt =====
-- Which bodies of the forms the schemas of their routes let through.
use db_backup_tool.Base.{
  String, ◌==◌, true, false, ◌&&◌, leb, [], ◌∷◌, Bool-cases, ◌≡◌, ◌∙◌, inl, inr, arith,
}
use db_backup_tool.Base.Json.{str, num, bool}
use db_backup_tool.Auth.{has}
use db_backup_tool.Routes.Schemas.{
  Zod, IsZod, run_schema, export_schema, create_schedule_schema, create_user_schema,
  create_server_schema, min_length,
}
use db_backup_tool.Frontend.Forms.{
  BackupForm, backup_body, ExportForm, export_body, export_formats, can_export, is_filled,
  ScheduleForm, schedule_body, can_save, UserForm, user_body, ServerForm, create_server_body,
}

module _ (zod : Zod) (law : IsZod zod) where
  -- The route of a backup lets the body of BackupModal through exactly when a database is named and the
  -- format is sql; the form opens with the format custom.
  pub backup_body_lem :
      (form : BackupForm)
      → zod.accepts_body run_schema (backup_body form)
        ≡ (is_filled form.database && form.format == "sql")
  unfolding backup_body
  backup_body_lem form =
      law.body run_schema _
      ∙ rw
          (
            law.non_empty_texts form.database,
            law.present _ (str form.format),
            law.literals "sql" form.format,
          )
          (ground arith)

  -- The route of an export lets the body of a form through exactly when its button is enabled, for any
  -- of the formats that it offers.
  pub export_body_lem :
      (server_id : String) (form : ExportForm)
      → is_filled server_id ≡ true
      → has export_formats form.format ≡ true
      → zod.accepts_body export_schema (export_body form) ≡ can_export server_id form
  unfolding export_body can_export
  export_body_lem server_id form named offered =
      law.body export_schema _
      ∙ rw
          (
            law.non_empty_texts form.database,
            law.non_empty_texts form.table,
            law.enums export_formats form.format,
            named,
            offered,
          )
          (ground arith)

  -- A schedule that its form lets a user save is let through exactly when its server is a UUID and it
  -- keeps from 1 to 365 backups.
  pub schedule_body_lem :
      (form : ScheduleForm)
      → can_save form ≡ true
      → zod.accepts_body create_schedule_schema (schedule_body form)
        ≡ (zod.is_uuid form.server_id && leb 1 form.retention && leb form.retention 365)
  unfolding schedule_body can_save
  schedule_body_lem form saved =
      law.body create_schedule_schema _
      ∙ rw
          (
            law.uuids form.server_id,
            law.non_empty_texts form.database,
            law.non_empty_texts form.cron,
            law.present _ (bool form.enabled),
            law.booleans form.enabled,
            law.present _ (num form.retention),
            law.ints 1 365 form.retention,
          )
          (ground (arith, saved))

  -- The route for a new user refuses every body of UserModal, which has no password.
  pub user_body_lem :
      (form : UserForm) → zod.accepts_body create_user_schema (user_body form) ≡ false
  unfolding user_body
  user_body_lem form = law.body create_user_schema _ ∙ elim (Bool-cases (form.name == "")) [
    | inl unnamed ↦ elim (Bool-cases (form.role_id == "")) [
      | inl free ↦ rw (unnamed, free, law.missing (min_length 8)) (ground arith)
      | inr bound ↦ rw (unnamed, bound, law.missing (min_length 8)) (ground arith)
    ]
    | inr named ↦ elim (Bool-cases (form.role_id == "")) [
      | inl free ↦ rw (named, free, law.missing (min_length 8)) (ground arith)
      | inr bound ↦ rw (named, bound, law.missing (min_length 8)) (ground arith)
    ]
  ]

  -- The route for a new server refuses the body of ServerFormModal where its mode of TLS is one that the
  -- schema does not list, as are two of those that the form offers.
  pub create_server_body_lem :
      (form : ServerForm)
      → has ("disable" ∷ "require" ∷ "verify_full" ∷ []) form.ssl_mode ≡ false
      → zod.accepts_body create_server_schema (create_server_body form) ≡ false
  unfolding create_server_body
  create_server_body_lem form unknown =
      law.body create_server_schema _
      ∙ rw (law.present _ (str form.ssl_mode), law.enums _ form.ssl_mode, unknown) (ground arith)
