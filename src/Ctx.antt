-- ===== src/Ctx.antt =====
-- ctx: what a node knows of itself.
pub mod NodeInfo
pub mod AppConf
