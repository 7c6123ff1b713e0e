-- ===== src/XgBoost.antt =====
-- src/frontend/xgboost.cc: from the bytes of an XGBoost model to the model.
pub mod Stream
pub mod Parse
pub mod Export
